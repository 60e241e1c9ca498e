-- ===== src/Base/Lists.antt =====
-- Lists measured by native numbers, and predicates and tests over lists.
use Prim.Native.Nat.{ℕ, suc, ◌+◌}
use mathlib.Core.Path.{◌≡◌, refl, sym, ◌∙◌}
use mathlib.Core.Bool.{Bool, true, false, ◌&&◌, ◌||◌}
use mathlib.Core.Option.{Option, none, some}
use mathlib.Core.List.{List, [], ◌∷◌, ◌++◌}
use native.Mathlib.Omega.{arith}
use mathlib.Core.Logic.{◌⊎◌, inl, inr}
use packslip.Base.Tests.{Bool-cases, if◌then◌else◌}

module _ {ℓ} {A : Type ℓ} where
  abbrev pub length : List A → ℕ
  length [] = 0
  length (x ∷ xs) = suc (length xs)

  abbrev pub all : (A → Bool) → List A → Bool
  all p [] = true
  all p (x ∷ xs) = p x && all p xs

  abbrev pub any : (A → Bool) → List A → Bool
  any p [] = false
  any p (x ∷ xs) = p x || any p xs

  abbrev pub select : (A → Bool) → List A → List A
  select p [] = []
  select p (x ∷ xs) = let rest = select p xs in if p x then x ∷ rest else rest

  -- The first element that passes the test.
  abbrev pub find : (A → Bool) → List A → Option A
  find p [] = none
  find p (x ∷ xs) = let rest = find p xs in if p x then some x else rest

  abbrev pub All {κ} : (A → Type κ) → List A → Type κ
  All P [] = Unit
  All P (x ∷ xs) = P x × All P xs

  abbrev pub Some : (A → Type 0) → List A → Type 0
  Some P [] = ⊥
  Some P (x ∷ xs) = P x ⊎ Some P xs

  pub length-append : (xs ys : List A) → length (xs ++ ys) ≡ length xs + length ys
  length-append [] ys = omega arith
  length-append (x ∷ xs) ys = omega (arith, length-append xs ys)

  pub All-append {κ} : (P : A → Type κ) (xs ys : List A) → All P xs → All P ys → All P (xs ++ ys)
  All-append P [] ys hx hy = hy
  All-append P (x ∷ xs) ys hx hy = (hx.0, All-append P xs ys hx.1 hy)

  pub All_imp {κ μ} :
      {P : A → Type κ} {Q : A → Type μ} (xs : List A) → ((x : A) → P x → Q x) → All P xs → All Q xs
  All_imp [] f h = tt
  All_imp (x ∷ xs) f h = (f x h.0, All_imp xs f h.1)

module _ {ℓ} {A : Type ℓ} where
  abbrev pub reverse : List A → List A
  reverse [] = []
  reverse (x ∷ xs) = reverse xs ++ (x ∷ [])

  -- The relation holds of each element with each later one.
  abbrev pub Pairwise {κ} : (A → A → Type κ) → List A → Type κ
  Pairwise R [] = Unit
  Pairwise R (x ∷ xs) = All (R x) xs × Pairwise R xs

  pub All-reverse {κ} : (P : A → Type κ) (xs : List A) → All P xs → All P (reverse xs)
  All-reverse P [] h = tt
  All-reverse P (x ∷ xs) h = All-append P (reverse xs) (x ∷ []) (All-reverse P xs h.1) (h.0, tt)

  pub All-concat_split {κ} :
      (P : A → Type κ) (xs : List A) (x : A) → All P (xs ++ (x ∷ [])) → All P xs × P x
  All-concat_split P [] x h = (tt, h.0)
  All-concat_split P (y ∷ xs) x h = let (a, b) = All-concat_split P xs x h.1 in ((h.0, a), b)

  pub All-reverse_back {κ} : (P : A → Type κ) (xs : List A) → All P (reverse xs) → All P xs
  All-reverse_back P [] h = tt
  All-reverse_back P (x ∷ xs) h =
      let (a, b) = All-concat_split P (reverse xs) x h in (b, All-reverse_back P xs a)

  Pairwise-concat {κ} :
      (R : A → A → Type κ) (xs : List A) (x : A)
      → Pairwise R xs
      → All (λ y. R y x) xs
      → Pairwise R (xs ++ (x ∷ []))
  Pairwise-concat R [] x p a = (tt, tt)
  Pairwise-concat R (y ∷ xs) x p a =
      (All-append (R y) xs (x ∷ []) p.0 (a.0, tt), Pairwise-concat R xs x p.1 a.1)

  pub Pairwise-reverse {κ} :
      (R : A → A → Type κ) (xs : List A)
      → ((x y : A) → R x y → R y x)
      → Pairwise R xs
      → Pairwise R (reverse xs)
  Pairwise-reverse R [] s p = tt
  Pairwise-reverse R (x ∷ xs) s p =
      Pairwise-concat R (reverse xs) x (Pairwise-reverse R xs s p.1)
        (All-reverse (λ y. R y x) xs (All_imp xs (λ y r. s x y r) p.0))

  -- A test that an element passes, some element passes.
  pub any-All : (xs : List A) → All (λ x. (p : A → Bool) → p x ≡ true → any p xs ≡ true) xs
  any-All [] = tt
  any-All (x ∷ xs) = (λ p h. rw h refl, All_imp xs (λ y f p h. ground (arith, f p h)) (any-All xs))

  pub select-All_back {κ} :
      (P : A → Type κ) (keep : A → Bool) (xs : List A)
      → All P (select keep xs)
      → All (λ x. keep x ≡ true → P x) xs
  select-All_back P keep [] h = tt
  select-All_back P keep (x ∷ xs) h = elim (Bool-cases (keep x)) [
    | inl e ↦ let k = rw e at h in ((λ q. k.0), select-All_back P keep xs k.1)
    | inr e ↦ ((λ q. cc (sym e ∙ q)), select-All_back P keep xs (rw e at h))
  ]
