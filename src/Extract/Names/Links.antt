-- ===== src/Extract/Names/Links.antt =====
-- `link_path` of src/install_extract.rs: the walk of a target from its link's parent.
use packslip.Base.{
  ℕ, zero, suc, ◌≡◌, ◌≢◌, refl, ap, ◌∙◌, true, false, List, [], ◌∷◌, ◌++◌, Option, none, some,
  Option-cases, length, length-append, All, All-append, if◌then◌else◌, ◌==◌, arith, Bool-cases, inl,
  inr, Result, ok, ◌>>=◌, ◌>>◌, refuse_if, bind-eq-ok, ok-injective,
}
use mathlib.Core.Path.{subst}
use packslip.Base.Text.{Text, text_eq, split}
use packslip.Extract.Names.{
  Error, refused, absolute_target, link_is_root, Components, dot_dot, is_malformed, is_kept, parts,
  is_nil, path, pop, walk, link_path,
}
use packslip.Extract.Names.Split.{Lacks, All_select, All_select_kept, split_flat, split_one}
use packslip.Extract.Names.Safe.{IsSafe, path-IsSafe, path-Accepted}

-- How deep a target ends that is walked from a directory at a given depth; `none` above the root.
unfoldable pub depth : ℕ → List Text → Option ℕ
depth n [] = some n
depth zero (part ∷ rest) = let down = depth 1 rest in if text_eq part dot_dot then none else down
depth (suc n) (part ∷ rest) =
    let up = depth n rest in
    let down = depth (suc (suc n)) rest in if text_eq part dot_dot then up else down

pub pop-eq-some :
    (at : Components) {up : Components} → pop at ≡ some up → (c : Text) × (at ≡ up ++ (c ∷ []))
unfolding pop
pop-eq-some [] h = cc
pop-eq-some (c ∷ []) h = (c, ground arith)
pop-eq-some (c ∷ d ∷ at) h = elim (Option-cases (pop (d ∷ at))) [
  | inl e ↦ cc (rw (e, pop) at h)
  | inr (r, e) ↦ let (x, q) = pop-eq-some (d ∷ at) e in (x, ground arith)
]

pub pop-concat : (p : Components) (c : Text) → pop (p ++ (c ∷ [])) ≡ some p
unfolding pop
pop-concat [] c = refl
pop-concat (d ∷ []) c = refl
pop-concat (d ∷ e ∷ p) c = ground (arith, pop-concat (e ∷ p) c)

pub pop-eq-none : (at : Components) → pop at ≡ none → at ≡ []
unfolding pop
pop-eq-none [] h = refl
pop-eq-none (c ∷ []) h = cc
pop-eq-none (c ∷ d ∷ at) h = ground (arith, pop-eq-none (d ∷ at))

All-append_left : (P : Text → Type 0) (xs ys : List Text) → All P (xs ++ ys) → All P xs
All-append_left P [] ys h = tt
All-append_left P (x ∷ xs) ys h = (h.0, All-append_left P xs ys h.1)

length-pop : (at : Components) {up : Components} → pop at ≡ some up → length at ≡ suc (length up)
length-pop at {up} h =
    let (c, e) = pop-eq-some at h in ap length e ∙ omega (arith, length-append up (c ∷ []))

pub pop-IsSafe :
    (at : Components) {up : Components} → pop at ≡ some up → All IsSafe at → All IsSafe up
pop-IsSafe at {up} h s =
    let (c, e) = pop-eq-some at h in All-append_left IsSafe up (c ∷ []) (rw e at s)

-- A piece between slashes is read as one component.
path_piece :
    (part : Text) {p : Components}
    → is_kept part ≡ true
    → Lacks (λ x. x == b'/') part
    → path part ≡ ok p
    → p ≡ part ∷ []
path_piece part kept flat h =
    (path-Accepted part h).same_parts ∙ rw (split_one b'/' part flat) (ground arith)

abbrev IsPiece : Text → Type 0
IsPiece part = (is_kept part ≡ true) × Lacks (λ x. x == b'/') part

walk-IsSafe :
    (rest : List Text) (at : Components) {q : Components}
    → All IsSafe at
    → walk at rest ≡ ok q
    → All IsSafe q
unfolding walk
walk-IsSafe [] at s h = subst (All IsSafe) (ok-injective h) s
walk-IsSafe (part ∷ rest) at s h = elim (Bool-cases (text_eq part dot_dot)) [
  | inl up ↦ elim (Option-cases (pop at)) [
    | inl e ↦ cc (rw (up, e) at h)
    | inr (r, e) ↦ walk-IsSafe rest r (pop-IsSafe at e s) (rw (up, e) at h)
  ]
  | inr down ↦
      let (p, e, later) = bind-eq-ok (path part) (λ p. walk (at ++ p) rest) (rw down at h) in
      walk-IsSafe rest (at ++ p) (All-append IsSafe at p s (path-IsSafe part e).1) later
]

depth_up :
    (n : ℕ) (part : Text) (rest : List Text)
    → text_eq part dot_dot ≡ true
    → depth (suc n) (part ∷ rest) ≡ depth n rest
unfolding depth
depth_up n part rest h = rw h

depth_down :
    (n : ℕ) (part : Text) (rest : List Text)
    → text_eq part dot_dot ≡ false
    → depth n (part ∷ rest) ≡ depth (suc n) rest
unfolding depth
depth_down zero part rest h = rw h
depth_down (suc n) part rest h = rw h

walk-depth :
    (rest : List Text) (at : Components) {q : Components}
    → All IsPiece rest
    → walk at rest ≡ ok q
    → depth (length at) rest ≡ some (length q)
unfolding walk
walk-depth [] at w h = unfold depth in ap (λ p. some (length p)) (ok-injective h)
walk-depth (part ∷ rest) at {q} w h = elim (Bool-cases (text_eq part dot_dot)) [
  | inl up ↦ elim (Option-cases (pop at)) [
    | inl e ↦ cc (rw (up, e) at h)
    | inr (r, e) ↦
        rw (length-pop at e, depth_up (length r) part rest up)
          (walk-depth rest r w.1 (rw (up, e) at h))
  ]
  | inr down ↦
      let (p, e, later) = bind-eq-ok (path part) (λ p. walk (at ++ p) rest) (rw down at h) in
      let one = path_piece part w.0.0 w.0.1 e in
      let n : length (at ++ p) ≡ suc (length at) =
        omega (arith, length-append at p, ap length one) in
      depth_down (length at) part rest down
      ∙ subst (λ k. depth k rest ≡ some (length q)) n (walk-depth rest (at ++ p) w.1 later)
]

All_zip : (P Q : Text → Type 0) (xs : List Text) → All P xs → All Q xs → All (λ x. P x × Q x) xs
All_zip P Q [] p q = tt
All_zip P Q (x ∷ xs) p q = ((p.0, q.0), All_zip P Q xs p.1 q.1)

abbrev nonroot : Components → Result Error Components
nonroot normalized = do refuse_if (is_nil normalized) (refused link_is_root); ok normalized

nonroot-eq-ok : (r : Components) {q : Components} → nonroot r ≡ ok q → (r ≡ q) × (q ≢ [])
nonroot-eq-ok [] h = cc
nonroot-eq-ok (c ∷ r) h = (ok-injective h, λ e. cc)

link_path-walk :
    (parent : Components) (target : Text) {q : Components}
    → link_path parent target ≡ ok q
    → (walk parent (parts target) ≡ ok q) × (q ≢ [])
unfolding link_path
link_path-walk parent target h =
    let (u, good, walked) =
      bind-eq-ok (refuse_if (is_malformed target) (refused absolute_target))
        (λ _. walk parent (parts target) >>= nonroot) h in
    let (r, e, last) = bind-eq-ok (walk parent (parts target)) nonroot walked in
    let (same, ne) = nonroot-eq-ok r last in (e ∙ ap ok same, ne)

-- An accepted target names an entry below the extraction root, with safe components only, if the
-- directory of the link has safe components. Its depth is the depth of that directory, one less
-- for each `..` and one more for each other component, and never falls below the root on the way.
pub link_path-IsSafe :
    (parent : Components) (target : Text) {q : Components}
    → All IsSafe parent
    → link_path parent target ≡ ok q
    → (q ≢ []) × All IsSafe q × (depth (length parent) (parts target) ≡ some (length q))
link_path-IsSafe parent target s h =
    let (walked, ne) = link_path-walk parent target h in
    (
      ne,
      walk-IsSafe (parts target) parent s walked,
      walk-depth (parts target) parent
          (All_zip _ _ (parts target) (All_select_kept is_kept (split b'/' target))
            (All_select _ is_kept _ (split_flat b'/' target)))
          walked,
    )
