-- ===== src/Forge/Check/Continues.antt =====
-- `Check::continues_signer` of src/forge.rs described: which signers continue an earlier one.
use mathlib.Core.Option.{some-injective}
use packslip.Base.{
  ◌≡◌, ◌↔◌, inl, inr, sym, ◌∙◌, Bool, true, false, List, [], ◌∷◌, Option, none, some, Some, any,
  Bool-cases, Option-cases, if◌then◌else◌, arith,
}
use packslip.Base.Text.{Text}
use packslip.Forge.Names.{ForgeName, Repository, parse}
use packslip.Forge.Urls.{same_url, without_ref, repository_of}
use packslip.Forge.Pins.{ForgePin}
use packslip.Forge.Check.Same.{IsSameRepository, IsShared, IsSameFile, same_repository_iff}
use packslip.Forge.Check.{Check, names_repository, is_own}

-- The project's name is the repository's.
abbrev pub Names : Repository → Text → Type 0
Names before project =
    (name : ForgeName) × (parse project ≡ some name)
    × IsSameRepository (name.host, name.repository) before

-- The pin that the check compares signers by: once the repository's ID has matched.
abbrev pub pin_of : Check → Option ForgePin
pin_of c = if c.by_id then c.pin else none

-- The signer before was the project's own workflow, by a name that its ID showed is the project's.
abbrev pub WasOwn : Check → ForgePin → Repository → Type 0
WasOwn c p before = Some (Names before) (p.project ∷ c.requested ∷ c.previous_projects)

pub data Continues (c : Check) (previous : Text) : Type 0 where
  -- Of a release that does not pin its workflow, another of the repository, or of the forge.
  of_forge :
      (before now : Repository)
      → c.pin_workflow ≡ false
      → repository_of previous ≡ some before
      → repository_of c.identity ≡ some now
      → before.0 ≡ now.0
      → (c.by_id ≡ false → IsSameRepository before now)
      → Continues c previous
  same_address :
      c.pin_workflow ≡ true
      → pin_of c ≡ none
      → same_url (without_ref previous) (without_ref c.identity) ≡ true
      → Continues c previous
  elsewhere :
      (p : ForgePin) (name : ForgeName)
      → c.pin_workflow ≡ true
      → pin_of c ≡ some p
      → parse p.project ≡ some name
      → repository_of previous ≡ none
      → IsSameFile previous c.identity
      → Continues c previous
  own :
      (p : ForgePin) (name : ForgeName) (before : Repository)
      → c.pin_workflow ≡ true
      → pin_of c ≡ some p
      → parse p.project ≡ some name
      → repository_of previous ≡ some before
      → WasOwn c p before
      → ((shared : Repository) → ¬ IsShared c.identity p shared)
      → IsSameFile previous c.identity
      → Continues c previous
  of_shared :
      (p : ForgePin) (name : ForgeName) (before shared : Repository)
      → c.pin_workflow ≡ true
      → pin_of c ≡ some p
      → parse p.project ≡ some name
      → repository_of previous ≡ some before
      → IsShared c.identity p shared
      → IsSameRepository before shared
      → (¬ WasOwn c p before)
      → IsSameFile previous c.identity
      → Continues c previous

names_repository_iff :
    (before : Repository) (project : Text)
    → (names_repository before project ≡ true) ↔ Names before project
names_repository_iff before project = elim (Option-cases (parse project)) [
  | inl e ↦ (λ h. cc (rw (e, names_repository) at h), λ (n, q, _). cc (sym e ∙ q))
  | inr (name, e) ↦ (
    λ h. (
      name,
      e,
      (same_repository_iff (name.host, name.repository) before).0 (rw (e, names_repository) at h),
    ),
    λ (n, q, s).
        let same : n ≡ name = some-injective _ _ (sym q ∙ e) in
        rw (e, names_repository)
          ((same_repository_iff (name.host, name.repository) before).1 (rw same at s)),
  )
]

any-Some :
    (p : Text → Bool) (P : Text → Type 0)
    → ((x : Text) → (p x ≡ true) ↔ P x)
    → (xs : List Text) → (any p xs ≡ true) ↔ Some P xs
any-Some p P f [] = (λ h. cc, λ h. absurd h)
any-Some p P f (x ∷ xs) =
    let rest = any-Some p P f xs in
    (
      λ h. elim (Bool-cases (p x)) [
        | inl e ↦ inl ((f x).0 e)
        | inr e ↦ inr (rest.0 (ground arith))
      ],
      λ h. elim h [ inl y ↦ ground (arith, (f x).1 y) | inr y ↦ ground (arith, rest.1 y) ],
    )

pub is_own_iff :
    (c : Check) (p : ForgePin) (before : Repository)
    → (is_own c p before ≡ true) ↔ WasOwn c p before
is_own_iff c p before =
    any-Some (names_repository before) (Names before) (names_repository_iff before)
      (p.project ∷ c.requested ∷ c.previous_projects)
