-- ===== src/Document/Validate/Places.antt =====
-- `Statement::validate` of src/model.rs: where the resources of a release come from.
use packslip.Base.{
  ◌≡◌, ◌⊎◌, inl, inr, refl, sym, true, false, not, ◌&&◌, arith, List, [], ◌∷◌, Option, none, some,
  All, All_imp, Some, all, find, Option-cases, Bool-cases, ok, passed_eq_ok,
}
use packslip.Base.Text.{Text, codes, text_eq, text_eq_iff, is_empty, split}
use packslip.Document.{Artifact, Bin, Source, Subject, Resource, Statement}
use packslip.Document.Names.{is_in, command_name, valid_relative_path}
use packslip.Document.Invalid.{
  ResourceSource, archive, asset, repo, exec, is_none, or_empty, digest_of,
}
use packslip.Document.Artifacts.{
  text_ltb, insert_name, insert_bins, bin_names_from, bin_names, is_bin,
}
use packslip.Document.Resources.{source}
use packslip.Document.Resources.Only.{IsOnly, source-IsOnly, source-asset}
use packslip.Document.Validate.{has_commit, program, check_source, validate}
use packslip.Document.Validate.Accepted.{IsChecked-of, check_resources-All}

-- No segment of the path is empty or leads out.
abbrev pub IsInside : Text → Type 0
IsInside path = All (λ segment. (¬ (segment ≡ [])) × (¬ (segment ≡ codes ".."))) (split b'/' path)

-- An artifact's bin is the command.
abbrev pub IsOwnCommand : List Artifact → Text → Type 0
IsOwnCommand artifacts name =
    Some (λ a. Some (λ b. command_name b.name ≡ command_name name) a.bin) artifacts

abbrev pub IsPlaced : Statement → ResourceSource → Resource → Type 0
IsPlaced s archive r = (path : Text) × (r.archive ≡ some path) × IsInside path
IsPlaced s asset r =
    (name : Text) × (r.asset ≡ some name) × Some (λ subject. subject.name ≡ name) s.subject
IsPlaced s repo r =
    (path : Text) × (r.repo ≡ some path)
    × IsInside path
    × ((from : Source) × (commit : Text) × (s.predicate.source ≡ some from)
        × (from.commit ≡ some commit))
IsPlaced s exec r =
    (program : Text) × (args : List Text) × (r.exec ≡ program ∷ args)
    × IsOwnCommand s.predicate.artifacts program

is_in-insert_name :
    (x name : Text) (xs : List Text)
    → is_in x (insert_name name xs) ≡ true
    → (x ≡ name) ⊎ (is_in x xs ≡ true)
is_in-insert_name x name [] h = inl ((text_eq_iff x name).0 (ground arith))
is_in-insert_name x name (y ∷ ys) h = elim (Bool-cases (text_ltb name y)) [
  | inl l ↦ elim (Bool-cases (text_eq x name)) [
    | inl e ↦ inl ((text_eq_iff x name).0 e)
    | inr e ↦ inr (rw (l, e) at h)
  ]
  | inr l ↦ elim (Bool-cases (text_eq name y)) [
    | inl q ↦ inr (rw (l, q) at h)
    | inr q ↦ elim (Bool-cases (text_eq x y)) [
      | inl e ↦ inr (rw e refl)
      | inr e ↦ elim (is_in-insert_name x name ys (rw (l, q, e) at h)) [
        | inl z ↦ inl z
        | inr z ↦ inr (rw (e, z) refl)
      ]
    ]
  ]
]

is_in-insert_bins :
    (x : Text) (bins : List Bin) (names : List Text)
    → is_in x (insert_bins bins names) ≡ true
    → Some (λ b. command_name b.name ≡ x) bins ⊎ (is_in x names ≡ true)
is_in-insert_bins x [] names h = inr h
is_in-insert_bins x (b ∷ more) names h =
    elim (is_in-insert_bins x more (insert_name (command_name b.name) names) h) [
      | inl s ↦ inl (inr s)
      | inr i ↦ elim (is_in-insert_name x (command_name b.name) names i) [
        | inl e ↦ inl (inl (sym e))
        | inr k ↦ inr k
      ]
    ]

is_in-bin_names_from :
    (x : Text) (names : List Text) (artifacts : List Artifact)
    → is_in x (bin_names_from names artifacts) ≡ true
    → Some (λ a. Some (λ b. command_name b.name ≡ x) a.bin) artifacts ⊎ (is_in x names ≡ true)
unfolding bin_names_from
is_in-bin_names_from x names [] h = inr h
is_in-bin_names_from x names (a ∷ artifacts) h =
    elim (is_in-bin_names_from x (insert_bins a.bin names) artifacts h) [
      | inl s ↦ inl (inr s)
      | inr i ↦ elim (is_in-insert_bins x a.bin names i) [ inl s ↦ inl (inl s) | inr k ↦ inr k ]
    ]

-- A subject with a digest is one of the statement's.
find-Some :
    (name : Text) (subjects : List Subject) (s : Subject)
    → find (λ s. text_eq s.name name) subjects ≡ some s
    → Some (λ s. s.name ≡ name) subjects
find-Some name [] s h = cc
find-Some name (x ∷ xs) s h = elim (Bool-cases (text_eq x.name name)) [
  | inl e ↦ inl ((text_eq_iff x.name name).0 e)
  | inr e ↦ inr (find-Some name xs s (rw e at h))
]

digest_of-Some :
    (s : Statement) (name : Text)
    → is_none (digest_of s name) ≡ false
    → Some (λ subject. subject.name ≡ name) s.subject
unfolding digest_of
digest_of-Some s name h = elim (Option-cases (find (λ s. text_eq s.name name) s.subject)) [
  | inl e ↦ cc (rw (e, digest_of) at h)
  | inr (subject, e) ↦ find-Some name s.subject subject e
]

has_commit-source :
    (source : Option Source)
    → has_commit source ≡ true
    → (from : Source) × (commit : Text) × (source ≡ some from) × (from.commit ≡ some commit)
has_commit-source none h = cc
has_commit-source (some from) h = elim (Option-cases from.commit) [
  | inl e ↦ cc (rw e at h)
  | inr (commit, e) ↦ (from, commit, refl, e)
]

segments_inside :
    (segments : List Text)
    → all (λ segment. not (is_empty segment) && not (text_eq segment (codes ".."))) segments ≡ true
    → All (λ segment. (¬ (segment ≡ [])) × (¬ (segment ≡ codes ".."))) segments
segments_inside [] h = tt
segments_inside (x ∷ xs) h = (
  (λ e. cc (rw e at h), λ e. let q = (text_eq_iff x (codes "..")).1 e in ground arith),
  segments_inside xs (ground arith),
)

valid_path :
    (place : Option Text)
    → valid_relative_path (or_empty place) ≡ true
    → (path : Text) × (place ≡ some path) × IsInside path
unfolding valid_relative_path
valid_path none h = cc
valid_path (some path) h = (path, refl, segments_inside (split b'/' path) (ground arith))

IsPlaced-of :
    (s : Statement) (r : Resource) (from : ResourceSource) (added : List Text)
    → source r ≡ some from
    → check_source s (bin_names s.predicate.artifacts) r from ≡ ok added
    → IsPlaced s from r
unfolding check_source
IsPlaced-of s r archive added e h =
    let (p, _) = passed_eq_ok (not (valid_relative_path (or_empty r.archive))) _ _ h in
    valid_path r.archive (ground arith)
IsPlaced-of s r asset added e h =
    let (p, _) = passed_eq_ok (is_none (digest_of s (or_empty r.asset))) _ _ h in
    (or_empty r.asset, source-asset r e, digest_of-Some s (or_empty r.asset) p)
IsPlaced-of s r repo added e h =
    let (p, h₁) = passed_eq_ok (not (valid_relative_path (or_empty r.repo))) _ _ h in
    let (c, _) = passed_eq_ok (not (has_commit s.predicate.source)) _ _ h₁ in
    let (path, q, i) = valid_path r.repo (ground (arith, p)) in
    (path, q, i, has_commit-source s.predicate.source (ground (arith, c)))
IsPlaced-of s r exec added e h =
    let (_, _, _, (program_, args, q)) = source-IsOnly r exec e in
    let (p, _) =
      passed_eq_ok (not (is_bin (bin_names s.predicate.artifacts) (program r.exec))) _ _ h in
    let own : is_bin (bin_names s.predicate.artifacts) program_ ≡ true =
      ground (arith, rw q at p) in
    elim (is_in-bin_names_from (command_name program_) [] s.predicate.artifacts own) [
      | inl c ↦ (program_, args, q, c)
      | inr z ↦ cc
    ]

module _ {V T : Type 0} (semver : Text → Option V) (timestamp : Text → Option T) where
  -- Of the four places that a resource of a release that `validate` accepts can come from, exactly
  -- one is given: a path in an archive that does not lead out, a file that is one of the statement's
  -- subjects, such a path in the repository at a commit that is given, or a command of the release's
  -- own.
  pub validate-IsPlaced :
      (s : Statement)
      → validate semver timestamp s ≡ ok tt
      → All (λ r. (from : ResourceSource) × IsOnly from r × IsPlaced s from r) s.predicate.resources
  validate-IsPlaced s h =
      let c = IsChecked-of semver timestamp s h in
      All_imp s.predicate.resources
        (λ r (added, k). (
          k.from,
          source-IsOnly r k.from k.one_source,
          IsPlaced-of s r k.from added k.one_source k.place,
        ))
        (check_resources-All s (bin_names s.predicate.artifacts) [] s.predicate.resources c.assets
          c.resources)
