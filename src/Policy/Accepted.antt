-- ===== src/Policy/Accepted.antt =====
-- `continuity` of src/install_policy.rs against a description of the records.
use mathlib.Core.Path.{subst}
use mathlib.Core.Option.{some-injective}
use packslip.Base.{
  ◌≡◌, ◌↔◌, ◌⊎◌, inl, inr, refl, sym, ap, ◌∙◌, true, false, not, ◌||◌, List, [], ◌∷◌, Option, none,
  some, Option-cases, Bool-cases, ok, passed_eq_ok, arith,
}
use packslip.Base.Text.{Text, text_eq, text_eq_iff}
use packslip.Policy.Record.{Role, release, list, Record, Reason, changes}
use packslip.Policy.Continuity.{
  same_role, is_other_role, role_of, prior_project_matches, is_approved, settle, compare_records,
  continuity,
}
use packslip.Policy.Changes.{IsContinued, changes_nil_iff}
use packslip.Policy.Prior.{IsPrior, prior_project_matches_iff}

-- The earlier record is of the same role, and its change to the new one loses nothing or has been
-- approved.
abbrev pub IsSuccessor : Role → Text → List Text → Option Record → Record → Type 0
IsSuccessor role id accepted none next = Unit
IsSuccessor role id accepted (some previous) next =
    (previous.role ≡ role) × (IsContinued previous next ⊎ (is_approved id accepted ≡ true))

same_role_iff : (a b : Role) → (same_role a b ≡ true) ↔ (a ≡ b)
same_role_iff release release = ground arith
same_role_iff release list = ground arith
same_role_iff list release = ground arith
same_role_iff list list = ground arith

settle_iff :
    (id : Text) (accepted : List Text) (reasons : List Reason)
    → (settle id accepted reasons ≡ ok tt) ↔ ((reasons ≡ []) ⊎ (is_approved id accepted ≡ true))
settle_iff id accepted [] = (λ h. inl refl, λ h. refl)
settle_iff id accepted (r ∷ rs) = elim (Bool-cases (is_approved id accepted)) [
  | inl e ↦ (λ h. inr e, λ h. rw e refl)
  | inr e ↦ (λ h. cc (rw e at h), λ h. elim h [ inl z ↦ cc | inr z ↦ absurd (cc (sym e ∙ z)) ])
]

IsSuccessor-role :
    (role : Role) (id : Text) (accepted : List Text) (previous : Option Record) (next : Record)
    → IsSuccessor role id accepted previous next
    → is_other_role role previous ≡ false
IsSuccessor-role role id accepted none next s = refl
IsSuccessor-role role id accepted (some previous) next (r, k) =
    rw ((same_role_iff previous.role role).1 r) refl

module _ {Requirements : Type 0}
    (approval_id : Text → Text → Text → Record → Record → Requirements → Text) where
  -- The ID that approves the change from the earlier record.
  abbrev pub id_of : Text → Text → Text → Option Record → Record → Requirements → Text
  id_of project role bundle none next requirements = []
  id_of project role bundle (some previous) next requirements =
      approval_id project role bundle previous next requirements

  records_iff :
      (project role bundle : Text) (expected : Role) (previous : Option Record) (next : Record)
      (requirements : Requirements) (accepted : List Text)
      → is_other_role expected previous ≡ false
      → (compare_records approval_id project role bundle previous next requirements accepted
          ≡ ok tt)
        ↔ IsSuccessor expected
            (id_of project role bundle previous next requirements)
            accepted
            previous
            next
  records_iff project role bundle expected none next requirements accepted o = (λ h. tt, λ h. refl)
  records_iff project role bundle expected (some previous) next requirements accepted o =
      let s =
        settle_iff (approval_id project role bundle previous next requirements) accepted
          (changes previous next) in
      let n = changes_nil_iff previous next in
      (
        λ h. (
          (same_role_iff previous.role expected).0 (ground arith),
          elim (s.0 h) [ inl e ↦ inl (n.0 e) | inr a ↦ inr a ],
        ),
        λ (r, k). s.1 (elim k [ inl c ↦ inl (n.1 c) | inr a ↦ inr a ]),
      )

  -- `continuity` accepts a record exactly when the role is one of the two, the record is of that
  -- role and of the project, the earlier record, if there is one, is of that role and of the
  -- project, by its name or by a name that its repository had, and what changed from it loses
  -- nothing or has been approved by its ID.
  pub continuity_iff :
      (project role bundle : Text) (previous : Option Record) (next : Record)
      (requirements : Requirements) (accepted : List Text)
      → (continuity approval_id project role bundle previous next requirements accepted ≡ ok tt) ↔ (
          (role_of role ≡ some next.role)
          × (next.project ≡ project)
          × IsPrior project previous next
          × IsSuccessor next.role
              (id_of project role bundle previous next requirements)
              accepted
              previous
              next)
  unfolding continuity
  continuity_iff project role bundle previous next requirements accepted =
      elim (Option-cases (role_of role)) [
        | inl e ↦ (λ h. cc (rw (e, continuity) at h), λ (r, _, _, _). cc (sym e ∙ r))
        | inr (expected, e) ↦ (
          λ h.
              let (a, h₁) =
                passed_eq_ok (not (same_role next.role expected) || is_other_role expected previous)
                  _ _ (rw (e, continuity) at h) in
              let (b, h₂) =
                passed_eq_ok
                  (not (text_eq next.project project)
                    || not (prior_project_matches project previous next))
                  _ _ h₁ in
              let same : next.role ≡ expected =
                (same_role_iff next.role expected).0 (ground arith) in
              (
                e ∙ ap some (sym same),
                (text_eq_iff next.project project).0 (ground arith),
                (prior_project_matches_iff project previous next).0 (ground arith),
                subst
                    (λ r.
                      IsSuccessor r (id_of project role bundle previous next requirements) accepted
                        previous next)
                    (sym same)
                    ((records_iff project role bundle expected previous next requirements accepted
                        (ground (arith, a))).0
                      h₂),
              ),
          λ (r, p, m, s).
              let q : next.role ≡ expected = some-injective _ _ (sym r ∙ e) in
              let s' : IsSuccessor expected (id_of project role bundle previous next requirements)
                  accepted previous next =
                subst
                  (λ r.
                    IsSuccessor r (id_of project role bundle previous next requirements) accepted
                      previous next)
                  q s in
              let fits =
                IsSuccessor-role expected (id_of project role bundle previous next requirements)
                  accepted previous next s' in
              rw
                (
                  e,
                  (same_role_iff next.role expected).1 q,
                  fits,
                  (text_eq_iff next.project project).1 p,
                  (prior_project_matches_iff project previous next).1 m,
                  continuity,
                )
                ((records_iff project role bundle expected previous next requirements accepted
                    fits).1
                  s'),
        )
      ]
