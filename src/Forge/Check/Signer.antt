-- ===== src/Forge/Check/Signer.antt =====
-- `Check::continues_signer` of src/forge.rs against a description of the signers.

use packslip.Base.{
  ◌≡◌, ◌↔◌, inl, inr, refl, sym, ◌∙◌, Bool, true, false, not, none, some, Bool-cases, Option-cases,
  if◌then◌else◌, arith,
}
use packslip.Base.Text.{Text, text_eq_iff}
use packslip.Forge.Names.{ForgeName, Repository, parse}
use packslip.Forge.Urls.{repository_of}
use packslip.Forge.Pins.{ForgePin, external_signer, same_path}
use packslip.Forge.Check.Same.{
  IsShared, IsSameFile, same_repository_iff, external_signer-IsShared, same_path_iff,
}
use packslip.Forge.Check.Continues.{
  pin_of, Continues, of_forge, same_address, elsewhere, own, of_shared, is_own_iff,
}
use packslip.Forge.Check.{
  Check, is_own, may_continue, same_forge, continues_pinned, continues_signer,
}

guard_iff : (b d : Bool) → ((if not b then false else d) ≡ true) ↔ ((b ≡ true) × (d ≡ true))
guard_iff true d = ground arith
guard_iff false d = ground arith

false_of_not : {P : Type 0} (b : Bool) → (P → b ≡ true) → b ≡ false → ¬ P
false_of_not b f e p = cc (sym e ∙ f p)

not_false : {P : Type 0} (b : Bool) → (b ≡ true → P) → (¬ P) → b ≡ false
not_false true f n = absurd (n (f refl))
not_false false f n = refl

same_forge_sound :
    (c : Check) (previous : Text)
    → c.pin_workflow ≡ false
    → same_forge c.by_id (repository_of previous) (repository_of c.identity) ≡ true
    → Continues c previous
same_forge_sound c previous w h = elim (Option-cases (repository_of previous)) [
  | inl e ↦ cc (rw e at h)
  | inr (before, e) ↦ elim (Option-cases (repository_of c.identity)) [
    | inl d ↦ cc (rw (e, d) at h)
    | inr (now, d) ↦
        let k = rw (e, d) at h in
        of_forge before now w e d ((text_eq_iff before.0 now.0).0 (ground arith))
          (λ i. (same_repository_iff before now).0 (ground arith))
  ]
]

-- The signers of a release that pins its workflow.
pinned_sound :
    (c : Check) (p : ForgePin) (name : ForgeName) (previous : Text) (before : Repository)
    → c.pin_workflow ≡ true
    → pin_of c ≡ some p
    → parse p.project ≡ some name
    → repository_of previous ≡ some before
    → IsSameFile previous c.identity
    → may_continue before (is_own c p before) (external_signer c.identity p) ≡ true
    → Continues c previous
pinned_sound c p name previous before w q n r f h =
    let was = is_own_iff c p before in
    elim (Option-cases (external_signer c.identity p)) [
      | inl e ↦
          own p name before w q n r (was.0 (rw e at h))
            (λ shared k. cc (sym e ∙ (external_signer-IsShared c.identity p shared).1 k)) f
      | inr (shared, e) ↦
          let k = rw e at h in
          of_shared p name before shared w q n r
            ((external_signer-IsShared c.identity p shared).0 e)
            ((same_repository_iff before shared).0 (ground arith))
            (false_of_not (is_own c p before) was.1 (ground arith)) f
    ]

continues_signer-Continues :
    (c : Check) (previous : Text) → continues_signer c previous ≡ true → Continues c previous
unfolding continues_signer same_path
continues_signer-Continues c previous h = elim (Bool-cases c.pin_workflow) [
  | inr w ↦ same_forge_sound c previous w (rw (w, continues_signer) at h)
  | inl w ↦
      let k : continues_pinned c previous (pin_of c) (repository_of previous) ≡ true =
        rw (w, continues_signer) at h in
      elim (Option-cases (pin_of c)) [
        | inl q ↦ same_address w q (rw q at k)
        | inr (p, q) ↦ elim (Option-cases (repository_of previous)) [
          | inl r ↦
              let ((name, _, n, _, _, _), f) =
                (same_path_iff previous p c.identity p).0 (rw (q, r) at k) in
              elsewhere p name w q n r f
          | inr (before, r) ↦
              let (m, s) =
                (guard_iff (may_continue before (is_own c p before) (external_signer c.identity p))
                    (same_path previous (some p) c.identity (some p))).0
                  (rw (q, r) at k) in
              let ((name, _, n, _, _, _), f) = (same_path_iff previous p c.identity p).0 s in
              pinned_sound c p name previous before w q n r f m
        ]
      ]
]

pinned_complete :
    (c : Check) (p : ForgePin) (name : ForgeName) (previous : Text) (before : Repository)
    → c.pin_workflow ≡ true
    → pin_of c ≡ some p
    → parse p.project ≡ some name
    → repository_of previous ≡ some before
    → IsSameFile previous c.identity
    → may_continue before (is_own c p before) (external_signer c.identity p) ≡ true
    → continues_signer c previous ≡ true
unfolding continues_signer
pinned_complete c p name previous before w q n r f m =
    rw (w, continues_signer)
      (let k : continues_pinned c previous (pin_of c) (repository_of previous) ≡ true =
          rw (q, r)
            ((guard_iff (may_continue before (is_own c p before) (external_signer c.identity p))
                (same_path previous (some p) c.identity (some p))).1
              (m, (same_path_iff previous p c.identity p).1 ((name, name, n, n, refl, refl), f))) in
        k)

no_external :
    (identity : Text) (p : ForgePin)
    → ((shared : Repository) → ¬ IsShared identity p shared)
    → external_signer identity p ≡ none
no_external identity p h = elim (Option-cases (external_signer identity p)) [
  | inl e ↦ e
  | inr (shared, e) ↦ absurd (h shared ((external_signer-IsShared identity p shared).0 e))
]

Continues-continues_signer :
    (c : Check) (previous : Text) → Continues c previous → continues_signer c previous ≡ true
unfolding continues_signer same_path
Continues-continues_signer c previous (of_forge before now w e d h s) =
    let host = (text_eq_iff before.0 now.0).1 h in
    elim (Bool-cases c.by_id) [
      | inl i ↦ rw (w, e, d, i, host, continues_signer) refl
      | inr i ↦
          rw (w, e, d, i, host, (same_repository_iff before now).1 (s i), continues_signer) refl
    ]
Continues-continues_signer c previous (same_address w q u) =
    rw (w, continues_signer)
      (let k : continues_pinned c previous (pin_of c) (repository_of previous) ≡ true = rw q u in k)
Continues-continues_signer c previous (elsewhere p name w q n r f) =
    rw (w, continues_signer)
      (let k : continues_pinned c previous (pin_of c) (repository_of previous) ≡ true =
          rw (q, r)
            ((same_path_iff previous p c.identity p).1 ((name, name, n, n, refl, refl), f)) in
        k)
Continues-continues_signer c previous (own p name before w q n r o e f) =
    pinned_complete c p name previous before w q n r f
      (rw (no_external c.identity p e) ((is_own_iff c p before).1 o))
Continues-continues_signer c previous (of_shared p name before shared w q n r e s o f) =
    let not_own = not_false (is_own c p before) (is_own_iff c p before).0 o in
    let same = (same_repository_iff before shared).1 s in
    pinned_complete c p name previous before w q n r f
      (rw ((external_signer-IsShared c.identity p shared).1 e, same, not_own) refl)

-- A check continues an earlier signer in just these cases. Of a release that does not pin its
-- workflow, both signers are of one forge, and of one repository where no ID was matched. Of a
-- release that does, where there is no pin or no ID was matched: the URLs are the same apart from
-- the ref. Otherwise the pin is of a forge's project, the file in the repository is the same, or
-- the URL where one of the signers is no such file, and one of three holds: the earlier signer is
-- of no forge's repository; it was of a name that is known to be the project's, and the new one is
-- not another repository's; or both are of one repository, which is not the project's.
pub continues_signer_iff :
    (c : Check) (previous : Text) → (continues_signer c previous ≡ true) ↔ Continues c previous
continues_signer_iff c previous =
    (continues_signer-Continues c previous, Continues-continues_signer c previous)
