-- ===== src/Discovery/Freshness.antt =====
-- `list_freshness` of src/discovery.rs.
use packslip.Base.{
  ℕ, ◌≡◌, ◌↔◌, ◌⊎◌, ◌≤◌, inl, inr, refl, sym, ◌∙◌, Bool, true, false, not, ◌||◌, arith, Option,
  none, some, ltb, Option-cases, if◌then◌else◌, Result, ok, err,
}
use mathlib.Core.Path.{subst}
use mathlib.Core.Option.{some-injective}
use packslip.Base.Text.{Text}
use packslip.Document.{ReleaseListStatement}
use packslip.Document.ReleaseLists.{is_current}
use packslip.Discovery.{Error, stale_list}

abbrev is_below : ℕ → Option ℕ → Bool
is_below sequence none = false
is_below sequence (some n) = ltb sequence n

is_below_iff :
    (s : ℕ) (previous : Option ℕ)
    → (is_below s previous ≡ false) ↔ ((n : ℕ) → previous ≡ some n → n ≤ s)
is_below_iff s none = (λ h n e. cc, λ h. refl)
is_below_iff s (some m) = (
  λ h n e. let q = some-injective _ _ e in ground (arith, q),
  λ h. let q = h m refl in ground arith,
)

fresh_passed :
    (current below : Bool)
    → (if not current || below then err stale_list else ok tt) ≡ ok tt
    → (current ≡ true) × (below ≡ false)
fresh_passed true true h = cc
fresh_passed true false h = (refl, refl)
fresh_passed false below h = cc

module _ {T : Type 0} (timestamp : Text → Option T) (later : T → T → Bool) where
  unfoldable pub list_freshness :
      Option ReleaseListStatement → Option ℕ → T → Result Error (Unit {0})
  list_freshness none none now = ok tt
  list_freshness none (some n) now = err stale_list
  list_freshness (some list) previous now =
      if not (is_current timestamp later list now) || is_below list.predicate.sequence previous
      then err stale_list
      else ok tt

  is_current_iff :
      (list : ReleaseListStatement) (now : T)
      → (is_current timestamp later list now ≡ true) ↔ (
          (expires : T) × (timestamp list.predicate.expires_at ≡ some expires)
          × (later expires now ≡ true))
  unfolding is_current
  is_current_iff list now = elim (Option-cases (timestamp list.predicate.expires_at)) [
    | inl e ↦ (λ h. cc (rw (e, is_current) at h), λ (x, q, _). cc (sym e ∙ q))
    | inr (t, e) ↦ (
      λ h. (t, e, rw (e, is_current) at h),
      λ (x, q, l).
          rw (e, is_current) (subst (λ u. later u now ≡ true) (some-injective _ _ (sym q ∙ e)) l),
    )
  ]

  -- A list is fresh exactly when it is absent and none was ever seen, or its end is after now and its
  -- sequence number is not below the last one seen.
  pub list_freshness_iff :
      (list : Option ReleaseListStatement) (previous : Option ℕ) (now : T)
      → (list_freshness list previous now ≡ ok tt) ↔ (
          ((list ≡ none) × (previous ≡ none))
          ⊎ ((l : ReleaseListStatement) × (expires : T) × (list ≡ some l)
              × (timestamp l.predicate.expires_at ≡ some expires)
              × (later expires now ≡ true)
              × ((n : ℕ) → previous ≡ some n → n ≤ l.predicate.sequence)))
  unfolding list_freshness
  list_freshness_iff none none now = (λ h. inl (refl, refl), λ h. refl)
  list_freshness_iff none (some n) now =
      (λ h. cc, λ h. elim h [ inl (_, e) ↦ cc | inr (l, _, e, _, _, _) ↦ cc ])
  list_freshness_iff (some list) previous now =
      let c = is_current_iff list now in
      let b = is_below_iff list.predicate.sequence previous in
      (
        λ h.
            let (x, y) =
              fresh_passed (is_current timestamp later list now)
                (is_below list.predicate.sequence previous) h in
            let (expires, e, l) = c.0 x in inr (list, expires, refl, e, l, b.0 y),
        λ h. elim h [
          | inl (e, _) ↦ cc
          | inr (l, expires, e, t, o, n) ↦
              let same : list ≡ l = some-injective _ _ e in
              let x : is_current timestamp later list now ≡ true = c.1 (
                expires,
                subst (λ u. timestamp u.predicate.expires_at ≡ some expires) (sym same) t,
                o,
              ) in
              let y = b.1 (
                subst (λ u. (n : ℕ) → previous ≡ some n → n ≤ u.predicate.sequence) (sym same) n) in
              rw (x, y, list_freshness) refl
        ],
      )
