-- ===== src/Document/Checks.antt =====
-- Laws of the loops that check every element of a list.
use mathlib.Core.Path.{subst}
use mathlib.Core.Option.{some-injective}
use packslip.Base.{
  map, ◌≡◌, inl, inr, refl, arith, Bool, true, false, List, [], ◌∷◌, ◌++◌, Option, none, some, All,
  All_imp, All-concat_split, Pairwise, find, Bool-cases, Result, ok, err, ◌>>◌,
}
use packslip.Base.Text.{Text, text_eq, text_eq_refl}
use packslip.Document.Names.{is_in}
use packslip.Document.Invalid.{InvalidDocument, Checked, each, each_after, if_some}

-- The first check passed, and the rest with it.
pub then-eq-ok :
    {B : Type 0} (m : Checked) (k : Result InvalidDocument B) {b : B}
    → (m >> k) ≡ ok b
    → (m ≡ ok tt) × (k ≡ ok b)
then-eq-ok (ok tt) k h = (refl, h)
then-eq-ok (err e) k h = cc

pub if_some-ok :
    {A : Type 0} (o : Option A) (check : A → Checked)
    → if_some o check ≡ ok tt
    → (a : A) → o ≡ some a
    → check a ≡ ok tt
if_some-ok none check h a e = cc
if_some-ok (some b) check h a e = subst (λ c. check c ≡ ok tt) (some-injective _ _ e) h

module _ {A : Type 0} where
  pub each-All :
      (check : A → Checked) (xs : List A) → each check xs ≡ ok tt → All (λ x. check x ≡ ok tt) xs
  each-All check [] h = tt
  each-All check (x ∷ xs) h =
      let (a, b) = then-eq-ok (check x) (each check xs) h in (a, each-All check xs b)

  module _ (check : List A → A → Checked) where
    pub each_after-All :
        (P : A → Type 0)
        → ((before : List A) (x : A) → check before x ≡ ok tt → P x)
        → (before xs : List A) → each_after check before xs ≡ ok tt
        → All P xs
    each_after-All P f before [] h = tt
    each_after-All P f before (x ∷ xs) h =
        let (a, b) = then-eq-ok (check before x) (each_after check (before ++ (x ∷ [])) xs) h in
        (f before x a, each_after-All P f (before ++ (x ∷ [])) xs b)

    each_after_related :
        (R : A → A → Type 0)
        → ((before : List A) (x : A) → check before x ≡ ok tt → All (λ b. R b x) before)
        → (before xs : List A) → each_after check before xs ≡ ok tt
        → Pairwise R xs × All (λ x. All (λ b. R b x) before) xs
    each_after_related R f before [] h = (tt, tt)
    each_after_related R f before (x ∷ xs) h =
        let (a, b) = then-eq-ok (check before x) (each_after check (before ++ (x ∷ [])) xs) h in
        let (p, q) = each_after_related R f (before ++ (x ∷ [])) xs b in
        (
          (All_imp xs (λ y z. (All-concat_split (λ b. R b y) before x z).1) q, p),
          (f before x a, All_imp xs (λ y z. (All-concat_split (λ b. R b y) before x z).0) q),
        )

    pub each_after-Pairwise :
        (R : A → A → Type 0)
        → ((before : List A) (x : A) → check before x ≡ ok tt → All (λ b. R b x) before)
        → (xs : List A) → each_after check [] xs ≡ ok tt
        → Pairwise R xs
    each_after-Pairwise R f xs h = (each_after_related R f [] xs h).0

  -- A name that is not among the names of a list is that of none of its elements.
  pub not_in_names :
      (name : A → Text) (t : Text) (xs : List A)
      → is_in t (map name xs) ≡ false
      → All (λ x. ¬ (name x ≡ t)) xs
  not_in_names name t [] h = tt
  not_in_names name t (x ∷ xs) h = (
    λ e. let r : text_eq t (name x) ≡ true = rw e (text_eq_refl t) in ground arith,
    not_in_names name t xs (ground arith),
  )

  pub find-none :
      (test : A → Bool) (xs : List A) → find test xs ≡ none → All (λ x. test x ≡ false) xs
  find-none test [] h = tt
  find-none test (x ∷ xs) h = elim (Bool-cases (test x)) [
    | inl e ↦ cc (rw e at h)
    | inr e ↦ (e, find-none test xs (rw e at h))
  ]
