-- ===== src/Document/Select/Choice.antt =====
-- The result that a rank of the artifacts leaves, for `select_artifact` of src/model.rs.
use mathlib.Core.Path.{subst}
use packslip.Base.{
  ◌≡◌, ◌↔◌, ◌⊎◌, inl, inr, refl, sym, ap, ◌∙◌, true, List, [], ◌∷◌, ◌++◌, Option, none, some, All,
  All_imp, Option-cases, Bool-cases, Result, ok, err,
}
use packslip.Document.{Artifact}
use packslip.Document.Select.{Selection, no_match, ambiguous, Key}
use packslip.Document.Select.Ranks.{IsAtMost, IsTop, has_key, holders, eq_key, eq_key_refl}
use packslip.Document.Select.Rule.{IsSelection}

module _ (IsRank : Artifact → Key → Type 0) where
  -- No artifact ranks above the key.
  abbrev pub IsHighest : Key → List Artifact → Type 0
  IsHighest k = All (λ a. (k' : Key) → IsRank a k' → IsAtMost k' k)

  -- The list has just the artifacts of this rank, in their order.
  abbrev pub AreRanked : Key → List Artifact → List Artifact → Type 0
  AreRanked k [] held = held ≡ []
  AreRanked k (a ∷ artifacts) held =
      (IsRank a k × (rest : List Artifact) × (held ≡ a ∷ rest) × AreRanked k artifacts rest)
      ⊎ ((¬ IsRank a k) × AreRanked k artifacts held)

  -- What the documentation says of a result: the artifact alone ranks highest, none has a rank, or
  -- the two named are the first and the last of several that rank highest.
  abbrev pub IsChoice : List Artifact → Result Selection Artifact → Type 0
  IsChoice artifacts (ok chosen) =
      (k : Key) × IsHighest k artifacts × AreRanked k artifacts (chosen ∷ [])
  IsChoice artifacts (err no_match) = All (λ a. (k : Key) → ¬ IsRank a k) artifacts
  IsChoice artifacts (err (ambiguous x y)) =
      (k : Key) × IsHighest k artifacts
      × ((c : Artifact) × (t : Artifact) × (mid : List Artifact) × AreRanked k artifacts
            (c ∷ (mid ++ (t ∷ [])))
          × (x ≡ c.name)
          × (y ≡ t.name))

module _ (IsRank : Artifact → Key → Type 0) (key : Artifact → Option Key)
    (key_iff : (a : Artifact) → (k : Key) → (key a ≡ some k) ↔ IsRank a k) where
  has_key-IsRank : (k : Key) (a : Artifact) → has_key k (key a) ≡ true → IsRank a k
  has_key-IsRank k a h = elim (Option-cases (key a)) [
    | inl e ↦ cc (rw e at h)
    | inr (k', e) ↦ (key_iff a k).0 (e ∙ ap some (eq_key k' k (rw e at h)))
  ]

  IsRank-has_key : (k : Key) (a : Artifact) → IsRank a k → has_key k (key a) ≡ true
  IsRank-has_key k a h = rw ((key_iff a k).1 h) (eq_key_refl k)

  holders-AreRanked :
      (k : Key) (artifacts : List Artifact) → AreRanked IsRank k artifacts (holders key k artifacts)
  unfolding holders
  holders-AreRanked k [] = refl
  holders-AreRanked k (a ∷ artifacts) = elim (Bool-cases (has_key k (key a))) [
    | inl e ↦ inl (
      has_key-IsRank k a e,
      holders key k artifacts,
      rw (e, holders) refl,
      holders-AreRanked k artifacts,
    )
    | inr e ↦
        inr
          (λ h. cc (sym e ∙ IsRank-has_key k a h), rw (e, holders) (holders-AreRanked k artifacts))
  ]

  AreRanked-holders :
      (k : Key) (artifacts held : List Artifact)
      → AreRanked IsRank k artifacts held
      → holders key k artifacts ≡ held
  unfolding holders
  AreRanked-holders k [] held h = sym h
  AreRanked-holders k (a ∷ artifacts) held (inl (r, rest, e, h)) =
      rw (IsRank-has_key k a r, AreRanked-holders k artifacts rest h, holders) (sym e)
  AreRanked-holders k (a ∷ artifacts) held (inr (n, h)) = elim (Bool-cases (has_key k (key a))) [
    | inl e ↦ absurd (n (has_key-IsRank k a e))
    | inr e ↦ rw (e, AreRanked-holders k artifacts held h, holders) refl
  ]

  holders_iff :
      (k : Key) (artifacts held : List Artifact)
      → (holders key k artifacts ≡ held) ↔ AreRanked IsRank k artifacts held
  holders_iff k artifacts held = (
    λ e. subst (AreRanked IsRank k artifacts) e (holders-AreRanked k artifacts),
    AreRanked-holders k artifacts held,
  )

  IsTop-IsHighest :
      (k : Key) (artifacts : List Artifact) → IsTop key k artifacts ↔ IsHighest IsRank k artifacts
  IsTop-IsHighest k artifacts = (
    All_imp artifacts (λ a h k' r. h k' ((key_iff a k').1 r)),
    All_imp artifacts (λ a h k' e. h k' ((key_iff a k').0 e)),
  )

  none_iff : (a : Artifact) → (key a ≡ none) ↔ ((k : Key) → ¬ IsRank a k)
  none_iff a = (
    λ e k r. cc (sym e ∙ (key_iff a k).1 r),
    λ h. elim (Option-cases (key a)) [ inl e ↦ e | inr (k, e) ↦ absurd (h k ((key_iff a k).0 e)) ],
  )

  pub IsSelection-IsChoice :
      (artifacts : List Artifact) (r : Result Selection Artifact)
      → IsSelection key artifacts r ↔ IsChoice IsRank artifacts r
  IsSelection-IsChoice artifacts (ok c) = (
    λ (k, t, e). (k, (IsTop-IsHighest k artifacts).0 t, (holders_iff k artifacts (c ∷ [])).0 e),
    λ (k, t, e). (k, (IsTop-IsHighest k artifacts).1 t, (holders_iff k artifacts (c ∷ [])).1 e),
  )
  IsSelection-IsChoice artifacts (err no_match) =
      (All_imp artifacts (λ a. (none_iff a).0), All_imp artifacts (λ a. (none_iff a).1))
  IsSelection-IsChoice artifacts (err (ambiguous x y)) = (
    λ (k, t, (c, d, mid, e, p, q)).
        (k, (IsTop-IsHighest k artifacts).0 t, (c, d, mid, (holders_iff k artifacts _).0 e, p, q)),
    λ (k, t, (c, d, mid, e, p, q)).
        (k, (IsTop-IsHighest k artifacts).1 t, (c, d, mid, (holders_iff k artifacts _).1 e, p, q)),
  )
