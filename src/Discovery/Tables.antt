-- ===== src/Discovery/Tables.antt =====
-- `BTreeMap` as the program uses it in src/discovery.rs: the entries in the order of their keys.
use mathlib.Core.Path.{subst}
use mathlib.Core.Option.{some-injective}
use packslip.Base.{
  ◌≡◌, sym, ◌∙◌, inl, inr, Bool, List, [], ◌∷◌, Option, none, some, All, Bool-cases, if◌then◌else◌,
}
use packslip.Base.Text.{Text, text_eq, text_eq_iff}
use packslip.Document.Artifacts.{text_ltb}

module _ {A : Type 0} where
  abbrev pub lookup : Text → List (Text × A) → Option A
  lookup k [] = none
  lookup k ((k', a) ∷ table) = let rest = lookup k table in if text_eq k k' then some a else rest

  abbrev pub insert : Text → A → List (Text × A) → List (Text × A)
  insert k a [] = (k, a) ∷ []
  insert k a ((k', b) ∷ table) =
      let rest = insert k a table in
      if text_eq k k'
      then (k, a) ∷ table
      else if text_ltb k k'
      then (k, a) ∷ (k', b) ∷ table
      else (k', b) ∷ rest

  abbrev pub remove : Text → List (Text × A) → List (Text × A)
  remove k [] = []
  remove k ((k', a) ∷ table) =
      let rest = remove k table in if text_eq k k' then rest else (k', a) ∷ rest

  abbrev pub retain : (Text → A → Bool) → List (Text × A) → List (Text × A)
  retain keep [] = []
  retain keep ((k, a) ∷ table) =
      let rest = retain keep table in if keep k a then (k, a) ∷ rest else rest

  abbrev pub values : List (Text × A) → List A
  values [] = []
  values ((_, a) ∷ table) = a ∷ values table

  -- Every entry satisfies the predicate.
  abbrev pub AllEntries : (Text → A → Type 0) → List (Text × A) → Type 0
  AllEntries P [] = Unit
  AllEntries P ((k, a) ∷ table) = P k a × AllEntries P table

  module _ (P : Text → A → Type 0) where
    pub lookup-AllEntries :
        (k : Text) (table : List (Text × A)) (a : A)
        → AllEntries P table
        → lookup k table ≡ some a
        → P k a
    lookup-AllEntries k [] a h e = cc
    lookup-AllEntries k ((k', b) ∷ table) a h e = elim (Bool-cases (text_eq k k')) [
      | inl q ↦
          subst (λ u. P u a) (sym ((text_eq_iff k k').0 q))
            (subst (P k') (some-injective _ _ (rw q at e)) h.0)
      | inr q ↦ lookup-AllEntries k table a h.1 (rw q at e)
    ]

    pub insert-AllEntries :
        (k : Text) (a : A) (table : List (Text × A))
        → P k a
        → AllEntries P table
        → AllEntries P (insert k a table)
    insert-AllEntries k a [] p h = (p, tt)
    insert-AllEntries k a ((k', b) ∷ table) p h = elim (Bool-cases (text_eq k k')) [
      | inl e ↦ rw e (p, h.1)
      | inr e ↦ elim (Bool-cases (text_ltb k k')) [
        | inl l ↦ rw (e, l) (p, h)
        | inr l ↦ rw (e, l) (h.0, insert-AllEntries k a table p h.1)
      ]
    ]

    pub remove-AllEntries :
        (k : Text) (table : List (Text × A)) → AllEntries P table → AllEntries P (remove k table)
    remove-AllEntries k [] h = tt
    remove-AllEntries k ((k', b) ∷ table) h = elim (Bool-cases (text_eq k k')) [
      | inl e ↦ rw e (remove-AllEntries k table h.1)
      | inr e ↦ rw e (h.0, remove-AllEntries k table h.1)
    ]

    pub retain-AllEntries :
        (keep : Text → A → Bool) (table : List (Text × A))
        → AllEntries P table
        → AllEntries P (retain keep table)
    retain-AllEntries keep [] h = tt
    retain-AllEntries keep ((k, a) ∷ table) h = elim (Bool-cases (keep k a)) [
      | inl e ↦ rw e (h.0, retain-AllEntries keep table h.1)
      | inr e ↦ rw e (retain-AllEntries keep table h.1)
    ]

  pub remove_absent :
      (k : Text) (P : Text → A → Type 0) (table : List (Text × A))
      → AllEntries P table
      → AllEntries (λ k' a. (¬ (k' ≡ k)) × P k' a) (remove k table)
  remove_absent k P [] h = tt
  remove_absent k P ((k', b) ∷ table) h = elim (Bool-cases (text_eq k k')) [
    | inl e ↦ rw e (remove_absent k P table h.1)
    | inr e ↦ rw e (
        (
          (λ q. absurd (cc (sym e ∙ (text_eq_iff k k').1 (sym q))), h.0),
          remove_absent k P table h.1,
        ))
  ]

  pub values-All :
      (Q : A → Type 0) (table : List (Text × A))
      → AllEntries (λ _ a. Q a) table
      → All Q (values table)
  values-All Q [] h = tt
  values-All Q ((k, a) ∷ table) h = (h.0, values-All Q table h.1)

  pub AllEntries-imp :
      {P Q : Text → A → Type 0} (table : List (Text × A))
      → ((k : Text) (a : A) → P k a → Q k a)
      → AllEntries P table
      → AllEntries Q table
  AllEntries-imp [] f h = tt
  AllEntries-imp ((k, a) ∷ table) f h = (f k a h.0, AllEntries-imp table f h.1)
