-- ===== src/Policy/Prior.antt =====
-- `continuity` of src/install_policy.rs: when the earlier record is of the project.
use packslip.Base.{
  ◌≡◌, ◌↔◌, ◌⊎◌, inl, inr, refl, sym, ◌∙◌, true, Option, none, some, Bool-cases, Option-cases,
  arith,
}
use packslip.Base.Text.{Text}
use packslip.Forge.Names.{repository_subpath, named, same_project, same_project_iff, text_eq?_iff}
use packslip.Forge.Pins.{ForgePin}
use packslip.Forge.Check.Same.{IsRenamed, continues_iff}
use packslip.Policy.Record.{Record, forge_project}
use packslip.Policy.Continuity.{follows_pin, prior_project_matches}

-- The repository of the earlier record has been renamed to the project's.
abbrev pub IsMoved : Text → Record → Record → Type 0
IsMoved project before next =
    (p : ForgePin) × (q : ForgePin) × (before.repository ≡ some p)
    × (next.repository ≡ some q)
    × (forge_project before.project ≡ true)
    × (forge_project project ≡ true)
    × IsRenamed p q
    × (repository_subpath before.project ≡ repository_subpath project)

-- There is no earlier record, or it is of the project's name or of one that its repository had.
abbrev pub IsPrior : Text → Option Record → Record → Type 0
IsPrior project none next = Unit
IsPrior project (some before) next =
    (named before.project ≡ named project) ⊎ IsMoved project before next

follows_pin_iff :
    (project : Text) (before next : Record)
    → (follows_pin project before before.repository next.repository ≡ true)
      ↔ IsMoved project before next
follows_pin_iff project before next = elim (Option-cases before.repository) [
  | inl e ↦ (λ h. cc (rw e at h), λ (p, q, f, _, _, _, _, _). cc (sym e ∙ f))
  | inr (x, e) ↦ elim (Option-cases next.repository) [
    | inl d ↦ (λ h. cc (rw (e, d) at h), λ (p, q, _, f, _, _, _, _). cc (sym d ∙ f))
    | inr (y, d) ↦ (
      λ h.
          let k = rw (e, d) at h in
          (
            x,
            y,
            e,
            d,
            ground (arith, k),
            ground (arith, k),
            (continues_iff x y).0 (ground (arith, k)),
            (text_eq?_iff _ _).0 (ground (arith, k)),
          ),
      λ (p, q, f, g, a, b, r, s). rw (f, g, a, b, (continues_iff p q).1 r) ((text_eq?_iff _ _).1 s),
    )
  ]
]

pub prior_project_matches_iff :
    (project : Text) (previous : Option Record) (next : Record)
    → (prior_project_matches project previous next ≡ true) ↔ IsPrior project previous next
unfolding prior_project_matches
prior_project_matches_iff project none next = (λ h. tt, λ h. refl)
prior_project_matches_iff project (some before) next =
    let same = same_project_iff before.project project in
    let moved = follows_pin_iff project before next in
    (
      λ h. elim (Bool-cases (same_project before.project project)) [
        | inl e ↦ inl (same.0 e)
        | inr e ↦ inr (moved.0 (rw (e, prior_project_matches) at h))
      ],
      λ h. elim h [
        | inl e ↦ rw (same.1 e, prior_project_matches) refl
        | inr m ↦ ground (arith, moved.1 m)
      ],
    )
