-- ===== src/Document/Select/Rule.antt =====
-- `select_artifact` of src/model.rs against the rule of the highest key, for any key.
use mathlib.Core.Path.{subst}
use mathlib.Core.List.{append-nil, append_assoc}
use packslip.Base.{
  ◌≡◌, ◌↔◌, ◌⊎◌, inl, inr, refl, sym, ap, ◌∙◌, List, [], ◌∷◌, ◌++◌, Option, none, some, All,
  Option-cases, Bool-cases, Result, ok, err,
}
use packslip.Base.Text.{Text}
use packslip.Document.{Artifact}
use packslip.Document.Select.{
  Host, Selection, no_match, ambiguous, Key, candidate, key_eq, Best, take_key, run, settle,
  select_artifact,
}
use packslip.Document.Select.Ranks.{
  IsAtMost, IsTop, holders, IsState, IsState-step, holders-unfit, eq_key, IsAtMost-antisym,
}

-- What the documentation says of a result: the artifact alone ranks highest of those that fit,
-- none fits, or the two named are the first and the last of several that rank highest.
abbrev pub IsSelection :
    (Artifact → Option Key) → List Artifact → Result Selection Artifact → Type 0
IsSelection key artifacts (ok chosen) =
    (k : Key) × IsTop key k artifacts × (holders key k artifacts ≡ chosen ∷ [])
IsSelection key artifacts (err no_match) = All (λ a. key a ≡ none) artifacts
IsSelection key artifacts (err (ambiguous x y)) =
    (k : Key) × IsTop key k artifacts
    × ((c : Artifact) × (t : Artifact) × (mid : List Artifact) × (holders key k artifacts
          ≡ c ∷ (mid ++ (t ∷ [])))
        × (x ≡ c.name)
        × (y ≡ t.name))

holder-candidate :
    (key : Artifact → Option Key) (k : Key) (artifacts : List Artifact) {a : Artifact}
    {rest : List Artifact}
    → holders key k artifacts ≡ a ∷ rest
    → ((k' : Key) → IsTop key k' artifacts → IsAtMost k k')
unfolding holders
holder-candidate key k [] h k' t = cc
holder-candidate key k (x ∷ xs) h k' t = elim (Option-cases (key x)) [
  | inl e ↦ holder-candidate key k xs (rw (e, holders) at h) k' t.1
  | inr (k₂, e) ↦ elim (Bool-cases (key_eq k₂ k)) [
    | inl q ↦ subst (λ u. IsAtMost u k') (eq_key k₂ k q) (t.0 k₂ e)
    | inr n ↦ holder-candidate key k xs (rw (e, n, holders) at h) k' t.1
  ]
]

IsSelection-state :
    (key : Artifact → Option Key) (artifacts : List Artifact) (s : Best)
    → IsState key artifacts s
    → IsSelection key artifacts (settle s)
IsSelection-state key artifacts (none, none) h = h
IsSelection-state key artifacts (none, some t) h = absurd h
IsSelection-state key artifacts (some (c, k), none) (t, h) = (k, t, h)
IsSelection-state key artifacts (some (c, k), some o) (t, (mid, h)) =
    (k, t, (c, o, mid, h, refl, refl))

abbrev last_from : Artifact → List Artifact → Artifact
last_from a [] = a
last_from a (b ∷ more) = last_from b more

abbrev result_of : Artifact → List Artifact → Result Selection Artifact
result_of c [] = ok c
result_of c (d ∷ more) = err (ambiguous c.name (last_from d more).name)

result_of_several :
    (c t : Artifact) (mid : List Artifact)
    → result_of c (mid ++ (t ∷ [])) ≡ err (ambiguous c.name t.name)
result_of_several c t [] = refl
result_of_several c t (d ∷ mid) = ap (λ a. err (ambiguous c.name a.name)) (last d mid)
  where
    last : (x : Artifact) (more : List Artifact) → last_from x (more ++ (t ∷ [])) ≡ t
    last x [] = refl
    last x (y ∷ more) = last y more

-- Either nothing fits, or the result is read off the artifacts that rank highest.
IsSelection-cases :
    (key : Artifact → Option Key) (artifacts : List Artifact) (r : Result Selection Artifact)
    → IsSelection key artifacts r
    → (All (λ a. key a ≡ none) artifacts × (r ≡ err no_match))
      ⊎ ((k : Key) × (c : Artifact) × (rest : List Artifact) × IsTop key k artifacts
          × (holders key k artifacts ≡ c ∷ rest)
          × (r ≡ result_of c rest))
IsSelection-cases key artifacts (ok c) (k, t, h) = inr (k, c, [], t, h, refl)
IsSelection-cases key artifacts (err no_match) h = inl (h, refl)
IsSelection-cases key artifacts (err (ambiguous x y)) (k, t, (c, o, mid, h, p, q)) =
    inr (k, c, mid ++ (o ∷ []), t, h, rw (p, q) (sym (result_of_several c o mid)))

-- The rule leaves one result.
IsSelection-unique :
    (key : Artifact → Option Key) (artifacts : List Artifact) (r r' : Result Selection Artifact)
    → IsSelection key artifacts r
    → IsSelection key artifacts r'
    → r ≡ r'
IsSelection-unique key artifacts r r' h h' = elim (IsSelection-cases key artifacts r h) [
  | inl (u, e) ↦ elim (IsSelection-cases key artifacts r' h') [
    | inl (u', e') ↦ e ∙ sym e'
    | inr (k, c, rest, t, p, q) ↦ let (_, nil) = holders-unfit key k artifacts u in cc
  ]
  | inr (k, c, rest, t, p, q) ↦ elim (IsSelection-cases key artifacts r' h') [
    | inl (u', e') ↦ let (_, nil) = holders-unfit key k artifacts u' in cc
    | inr (k', c', rest', t', p', q') ↦
        let same : k ≡ k' =
          IsAtMost-antisym k k' (holder-candidate key k artifacts p k' t')
            (holder-candidate key k' artifacts p' k t) in
        let whole : c ∷ rest ≡ c' ∷ rest' = sym p ∙ ap (λ u. holders key u artifacts) same ∙ p' in
        let first : c ≡ c' = cc in let others : rest ≡ rest' = cc in q ∙ rw (first, others) (sym q')
  ]
]

run-IsState :
    (host : Host) (variant : Option Text) (formats : List Text) (done rest : List Artifact)
    (s : Best)
    → IsState (candidate host variant formats) done s
    → IsState (candidate host variant formats) (done ++ rest) (run host variant formats rest s)
unfolding run
run-IsState host variant formats done [] s h =
    subst (λ xs. IsState (candidate host variant formats) xs s) (sym (append-nil done)) h
run-IsState host variant formats done (a ∷ rest) s h =
    let now = candidate host variant formats a in
    subst
      (λ xs.
        IsState (candidate host variant formats) xs
          (run host variant formats rest (take_key a now s)))
      (append_assoc done (a ∷ []) rest)
      (run-IsState host variant formats (done ++ (a ∷ [])) rest (take_key a now s)
        (IsState-step (candidate host variant formats) done a s h))

-- `select_artifact` returns a result exactly when the rule does on the keys of the artifacts.
pub select_artifact-candidate_iff :
    (artifacts : List Artifact) (host : Host) (variant : Option Text) (formats : List Text)
    (r : Result Selection Artifact)
    → (select_artifact artifacts host variant formats ≡ r)
      ↔ IsSelection (candidate host variant formats) artifacts r
unfolding select_artifact
select_artifact-candidate_iff artifacts host variant formats r =
    let found : IsSelection (candidate host variant formats) artifacts
        (select_artifact artifacts host variant formats) =
      IsSelection-state (candidate host variant formats) artifacts _
        (run-IsState host variant formats [] artifacts (none, none) tt) in
    (
      λ e. subst (IsSelection (candidate host variant formats) artifacts) e found,
      λ h. IsSelection-unique (candidate host variant formats) artifacts _ r found h,
    )
