-- ===== src/Extract/Resolve.antt =====
-- `resolved_link` of src/install_extract.rs on Unix: the path of a link with every symbolic link on
-- the way followed. The file system below the extraction root is the parameter `look`, which does
-- not change during the walk. `expansions` is counted down from 128.
pub mod Physical
use packslip.Base.{
  ℕ, zero, suc, ◌+◌, ◌^◌, ◌<◌, ◌≡◌, ◌≢◌, refl, sym, ap, ◌∙◌, Bool, true, false, List, [], ◌∷◌, ◌++◌,
  map, Option, none, some, All, Result, ok, err, ◌>>=◌, ◌>>◌, refuse_if, Bool-cases, Option-cases,
  Result-cases, bind-eq-ok, ok-injective, refuse_if-eq-ok, inl, inr, arith, if◌then◌else◌, ◌⊎◌, not,
  ◌&&◌, select,
}
use packslip.Base.Text.{Text, text_eq, is_empty, split}
use packslip.Extract.Names.{
  Error, io, refused, link_escapes, absolute_target, deep_link, Components, dot, dot_dot, pop,
}

-- `std::path::Component` on Unix.
pub data Component : Type 0 where
  root_dir cur_dir parent_dir : Component
  normal : Text → Component

-- What `symlink_metadata` and `read_link` say of a path below the root.
pub data Look : Type 0 where
  link : List Component → Look
  other : Look
  not_found : Look
  failed : Look

-- `Path::components` of a nonempty path: a leading slash is the root, a leading `.` is kept,
-- other empty or `.` pieces are dropped.
component_of : Text → Component
component_of piece =
    if text_eq piece dot_dot
    then parent_dir
    else if text_eq piece dot
    then cur_dir
    else normal piece

inner_components : List Text → List Component
inner_components pieces =
    map component_of (select (λ c. not (is_empty c) && not (text_eq c dot)) pieces)

first_components : List Text → List Component
first_components [] = []
first_components (p ∷ ps) =
    if is_empty p then root_dir ∷ inner_components ps else component_of p ∷ inner_components ps

unfoldable pub components : Text → List Component
unfolding component_of inner_components first_components
components [] = []
components (c ∷ s) = first_components (split b'/' (c ∷ s))

module _ (look : Components → Look) where
  -- The loop, with the expansions left, `resolved` and `pending`.
  unfoldable pub resolve : ℕ → Components → List Component → Result Error Components
  resolve left resolved [] = ok resolved
  resolve left resolved (cur_dir ∷ pending) = resolve left resolved pending
  resolve left resolved (root_dir ∷ pending) = err (refused absolute_target)
  resolve left resolved (parent_dir ∷ pending) = elim (pop resolved) [
    | none ↦ err (refused link_escapes)
    | some up ↦ resolve left up pending
  ]
  resolve zero resolved (normal c ∷ pending) = elim (look (resolved ++ (c ∷ []))) [
    | link target ↦ err (refused deep_link)
    | other ↦ resolve zero (resolved ++ (c ∷ [])) pending
    | not_found ↦ resolve zero (resolved ++ (c ∷ [])) pending
    | failed ↦ err io
  ]
  resolve (suc left) resolved (normal c ∷ pending) = elim (look (resolved ++ (c ∷ []))) [
    | link target ↦ resolve left resolved (target ++ pending)
    | other ↦ resolve (suc left) (resolved ++ (c ∷ [])) pending
    | not_found ↦ resolve (suc left) (resolved ++ (c ∷ [])) pending
    | failed ↦ err io
  ]

  unfoldable pub resolved_link : Components → Result Error Components
  unfolding resolve
  resolved_link relative = resolve 128 [] (map normal relative)
