-- ===== src/Document/Select/Ranks.antt =====
-- `select_artifact` of src/model.rs : what its loop holds between two artifacts.
use mathlib.Core.Path.{subst}
use mathlib.Core.Option.{some-injective}
use packslip.Base.{
  ◌≡◌, ◌⊎◌, ◌≤◌, ◌<◌, inl, inr, refl, sym, ap, ◌∙◌, Bool, true, false, List, [], ◌∷◌, ◌++◌, Option,
  none, some, All, All-append, select, Option-cases, Bool-cases, arith,
}
use packslip.Document.{Artifact}
use packslip.Document.Select.{Key, key_ltb, key_eq, Best, take_key}

-- The first key is not above the second.
abbrev pub IsAtMost : Key → Key → Type 0
IsAtMost (a, b) (c, d) = (a < c) ⊎ ((a ≡ c) × (b ≤ d))

lt_key : (k' k : Key) → key_ltb k' k ≡ true → IsAtMost k' k × (key_eq k' k ≡ false)
lt_key (a, b) (c, d) h = ground arith

pub eq_key : (k' k : Key) → key_eq k' k ≡ true → k' ≡ k
eq_key (a, b) (c, d) h = let p : a ≡ c = ground arith in let q : b ≡ d = ground arith in cc

pub eq_key_refl : (k : Key) → key_eq k k ≡ true
eq_key_refl (a, b) = ground arith

gt_key :
    (k k' k₂ : Key)
    → key_ltb k' k ≡ false
    → key_eq k' k ≡ false
    → IsAtMost k₂ k
    → IsAtMost k₂ k' × (key_eq k₂ k' ≡ false)
gt_key (a, b) (c, d) (e, f) h g i = ground arith

IsAtMost-refl : (k : Key) → IsAtMost k k
IsAtMost-refl (a, b) = ground arith

pub IsAtMost-antisym : (k k' : Key) → IsAtMost k k' → IsAtMost k' k → k ≡ k'
IsAtMost-antisym (a, b) (c, d) h i =
    let p : a ≡ c = ground arith in let q : b ≡ d = ground arith in cc

abbrev pub has_key : Key → Option Key → Bool
has_key k none = false
has_key k (some k') = key_eq k' k

-- The first of the artifacts is the chosen one, and the last of several is the tied one.
abbrev IsHeld : List Artifact → Artifact → Option Artifact → Type 0
IsHeld held c none = held ≡ c ∷ []
IsHeld held c (some t) = (mid : List Artifact) × (held ≡ c ∷ (mid ++ (t ∷ [])))

IsHeld-tied :
    (held : List Artifact) (c : Artifact) (tied : Option Artifact) (a : Artifact)
    → IsHeld held c tied
    → IsHeld (held ++ (a ∷ [])) c (some a)
IsHeld-tied held c none a h = ([], ap (◌++ (a ∷ [])) h)
IsHeld-tied held c (some t) a (mid, h) = (mid ++ (t ∷ []), ap (◌++ (a ∷ [])) h)

module _ (key : Artifact → Option Key) where
  -- No artifact that fits ranks above the key.
  abbrev pub IsTop : Key → List Artifact → Type 0
  IsTop k = All (λ a. (k' : Key) → key a ≡ some k' → IsAtMost k' k)

  -- The artifacts that fit with just this key, in their order.
  unfoldable pub holders : Key → List Artifact → List Artifact
  holders k = select (λ a. has_key k (key a))

  abbrev pub IsState : List Artifact → Best → Type 0
  IsState done (none, none) = All (λ a. key a ≡ none) done
  IsState done (none, some _) = ⊥
  IsState done (some (c, k), tied) = IsTop k done × IsHeld (holders k done) c tied

  holders-skip :
      (k : Key) (xs : List Artifact) (a : Artifact)
      → has_key k (key a) ≡ false
      → holders k (xs ++ (a ∷ [])) ≡ holders k xs
  unfolding holders
  holders-skip k [] a h = rw (h, holders) refl
  holders-skip k (x ∷ xs) a h = elim (Bool-cases (has_key k (key x))) [
    | inl e ↦ rw (e, holders-skip k xs a h, holders) refl
    | inr e ↦ rw (e, holders-skip k xs a h, holders) refl
  ]

  holders-take :
      (k : Key) (xs : List Artifact) (a : Artifact)
      → has_key k (key a) ≡ true
      → holders k (xs ++ (a ∷ [])) ≡ holders k xs ++ (a ∷ [])
  unfolding holders
  holders-take k [] a h = rw (h, holders) refl
  holders-take k (x ∷ xs) a h = elim (Bool-cases (has_key k (key x))) [
    | inl e ↦ rw (e, holders-take k xs a h, holders) refl
    | inr e ↦ rw (e, holders-take k xs a h, holders) refl
  ]

  -- Artifacts that rank at most as high as a key below this one do not hold this one.
  holders-above :
      (k k' : Key) (xs : List Artifact)
      → key_ltb k' k ≡ false
      → key_eq k' k ≡ false
      → IsTop k xs
      → IsTop k' xs × (holders k' xs ≡ [])
  unfolding holders
  holders-above k k' [] l e h = (tt, refl)
  holders-above k k' (x ∷ xs) l e h =
      let (top, nil) = holders-above k k' xs l e h.1 in
      elim (Option-cases (key x)) [
        | inl n ↦ ((λ z q. cc (sym n ∙ q), top), rw (n, nil, holders) refl)
        | inr (k₂, q) ↦
            let (m, d) = gt_key k k' k₂ l e (h.0 k₂ q) in
            (
              (λ z r. subst (λ u. IsAtMost u k') (some-injective _ _ (sym q ∙ r)) m, top),
              rw (q, d, nil, holders) refl,
            )
      ]

  pub holders-unfit :
      (k : Key) (xs : List Artifact) → All (λ a. key a ≡ none) xs → IsTop k xs × (holders k xs ≡ [])
  unfolding holders
  holders-unfit k [] h = (tt, refl)
  holders-unfit k (x ∷ xs) h =
      let (top, nil) = holders-unfit k xs h.1 in
      ((λ z q. cc (sym h.0 ∙ q), top), rw (h.0, nil, holders) refl)

  IsTop-grow :
      (k : Key) (xs : List Artifact) (a : Artifact)
      → IsTop k xs
      → ((k' : Key) → key a ≡ some k' → IsAtMost k' k)
      → IsTop k (xs ++ (a ∷ []))
  IsTop-grow k xs a h t = All-append _ xs (a ∷ []) h (t, tt)

  IsState-new :
      (k : Key) (done : List Artifact) (a : Artifact)
      → key a ≡ some k
      → IsTop k done × (holders k done ≡ [])
      → IsState (done ++ (a ∷ [])) (some (a, k), none)
  IsState-new k done a e (t, n) = (
    IsTop-grow k done a t
        (λ k' q. subst (λ u. IsAtMost u k) (some-injective _ _ (sym e ∙ q)) (IsAtMost-refl k)),
    holders-take k done a (rw e (eq_key_refl k)) ∙ ap (◌++ (a ∷ [])) n,
  )

  IsState-skip :
      (k : Key) (done : List Artifact) (a c : Artifact) (tied : Option Artifact)
      → IsState done (some (c, k), tied)
      → ((k' : Key) → key a ≡ some k' → IsAtMost k' k)
      → has_key k (key a) ≡ false
      → IsState (done ++ (a ∷ [])) (some (c, k), tied)
  IsState-skip k done a c tied (t, h) m n =
      (IsTop-grow k done a t m, subst (λ hs. IsHeld hs c tied) (sym (holders-skip k done a n)) h)

  IsState-tie :
      (k : Key) (done : List Artifact) (a c : Artifact) (tied : Option Artifact)
      → IsState done (some (c, k), tied)
      → key a ≡ some k
      → IsState (done ++ (a ∷ [])) (some (c, k), some a)
  IsState-tie k done a c tied (t, h) e = (
    IsTop-grow k done a t
        (λ k' q. subst (λ u. IsAtMost u k) (some-injective _ _ (sym e ∙ q)) (IsAtMost-refl k)),
    subst (λ hs. IsHeld hs c (some a)) (sym (holders-take k done a (rw e (eq_key_refl k))))
        (IsHeld-tied (holders k done) c tied a h),
  )

  pub IsState-step :
      (done : List Artifact) (a : Artifact) (s : Best)
      → IsState done s
      → IsState (done ++ (a ∷ [])) (take_key a (key a) s)
  IsState-step done a (none, none) h = elim (Option-cases (key a)) [
    | inl e ↦ rw e (All-append (λ x. key x ≡ none) done (a ∷ []) h (e, tt))
    | inr (k, e) ↦ rw e (IsState-new k done a e (holders-unfit k done h))
  ]
  IsState-step done a (none, some t) h = absurd h
  IsState-step done a (some (c, k), tied) h = elim (Option-cases (key a)) [
    | inl e ↦ rw e (IsState-skip k done a c tied h (λ k' q. cc (sym e ∙ q)) (rw e refl))
    | inr (k', e) ↦ elim (Bool-cases (key_ltb k' k)) [
      | inl l ↦
          let (m, n) = lt_key k' k l in
          rw (e, l)
            (IsState-skip k done a c tied h
              (λ k₂ q. subst (λ u. IsAtMost u k) (some-injective _ _ (sym e ∙ q)) m) (rw e n))
      | inr l ↦ elim (Bool-cases (key_eq k' k)) [
        | inl q ↦ rw (e, l, q) (IsState-tie k done a c tied h (e ∙ ap some (eq_key k' k q)))
        | inr n ↦ rw (e, l, n) (IsState-new k' done a e (holders-above k k' done l n h.0))
      ]
    ]
  ]
