-- ===== src/Extract/Names/Split.antt =====
-- `split` against its inverse `join`, and what the pieces of a text inherit from it.
use packslip.Base.{
  ℕ, suc, ◌+◌, ◌≤◌, ◌≡◌, ◌≢◌, refl, ap, ◌∙◌, Bool, true, false, ◌||◌, List, [], ◌∷◌, ◌++◌, length,
  any, select, All, length-append, ◌==◌, arith, Bool-cases, inl, inr,
}
use packslip.Base.Text.{Text, split, push_head}

unfoldable pub join : ℕ → List Text → Text
join c [] = []
join c (p ∷ []) = p
join c (p ∷ q ∷ ps) = p ++ (c ∷ join c (q ∷ ps))

abbrev pub Lacks : (ℕ → Bool) → Text → Type 0
Lacks bad p = any bad p ≡ false

pub All_select :
    {A : Type 0} (P : A → Type 0) (keep : A → Bool) (xs : List A)
    → All P xs
    → All P (select keep xs)
All_select P keep [] h = tt
All_select P keep (x ∷ xs) h = elim (Bool-cases (keep x)) [
  | inl kept ↦ rw kept (h.0, All_select P keep xs h.1)
  | inr dropped ↦ rw dropped (All_select P keep xs h.1)
]

pub All_select_kept :
    {A : Type 0} (keep : A → Bool) (xs : List A) → All (λ x. keep x ≡ true) (select keep xs)
All_select_kept keep [] = tt
All_select_kept keep (x ∷ xs) = elim (Bool-cases (keep x)) [
  | inl kept ↦ rw kept (kept, All_select_kept keep xs)
  | inr dropped ↦ rw dropped (All_select_kept keep xs)
]

pub select_all :
    {A : Type 0} (keep : A → Bool) (xs : List A) → All (λ x. keep x ≡ true) xs → select keep xs ≡ xs
select_all keep [] h = refl
select_all keep (x ∷ xs) h = ground (arith, h.0, select_all keep xs h.1)

pub length-select :
    {A : Type 0} (keep : A → Bool) (xs : List A) → length (select keep xs) ≤ length xs
length-select keep [] = omega arith
length-select keep (x ∷ xs) = ground (arith, length-select keep xs)

push_head-ne-nil : (x : ℕ) (ps : List Text) → push_head x ps ≢ []
push_head-ne-nil x [] h = cc
push_head-ne-nil x (p ∷ ps) h = cc

pub split-ne-nil : (c : ℕ) (s : Text) → split c s ≢ []
unfolding split
split-ne-nil c [] h = cc
split-ne-nil c (x ∷ xs) h = ground (arith, push_head-ne-nil x (split c xs))

push_head-Lacks :
    (bad : ℕ → Bool) (x : ℕ) (ps : List Text)
    → bad x ≡ false
    → All (Lacks bad) ps
    → All (Lacks bad) (push_head x ps)
push_head-Lacks bad x [] h t = (rw h, tt)
push_head-Lacks bad x (p ∷ ps) h t = (rw h t.0, t.1)

-- A byte that the text lacks is in none of its pieces.
pub split-Lacks : (bad : ℕ → Bool) (c : ℕ) (s : Text) → Lacks bad s → All (Lacks bad) (split c s)
unfolding split
split-Lacks bad c [] h = (refl, tt)
split-Lacks bad c (x ∷ xs) h =
    let here : bad x ≡ false = ground arith in
    let later : Lacks bad xs = ground arith in
    elim (Bool-cases (x == c)) [
      | inl cut ↦ rw cut (refl, split-Lacks bad c xs later)
      | inr on ↦ rw on (push_head-Lacks bad x _ here (split-Lacks bad c xs later))
    ]

-- The separator is in none of the pieces.
pub split_flat : (c : ℕ) (s : Text) → All (Lacks (λ x. x == c)) (split c s)
unfolding split
split_flat c [] = (refl, tt)
split_flat c (x ∷ xs) = elim (Bool-cases (x == c)) [
  | inl cut ↦ rw cut (refl, split_flat c xs)
  | inr on ↦ rw on (push_head-Lacks (λ y. y == c) x _ on (split_flat c xs))
]

split-append :
    (c : ℕ) (p : Text) (s : Text) → Lacks (λ x. x == c) p → split c (p ++ (c ∷ s)) ≡ p ∷ split c s
unfolding split
split-append c [] s h = ground arith
split-append c (x ∷ p) s h = ground (arith, split-append c p s)

pub split_one : (c : ℕ) (p : Text) → Lacks (λ x. x == c) p → split c p ≡ p ∷ []
unfolding split
split_one c [] h = refl
split_one c (x ∷ p) h = ground (arith, split_one c p)

pub split-join :
    (c : ℕ) (ps : List Text) → ps ≢ [] → All (Lacks (λ x. x == c)) ps → split c (join c ps) ≡ ps
unfolding join
split-join c [] ne h = absurd (ne refl)
split-join c (p ∷ []) ne h = split_one c p h.0
split-join c (p ∷ q ∷ ps) ne h =
    split-append c p _ h.0 ∙ ap (◌∷◌ p) (split-join c (q ∷ ps) (λ e. cc) h.1)

any-append : (bad : ℕ → Bool) (a b : Text) → any bad (a ++ b) ≡ (any bad a || any bad b)
any-append bad [] b = refl
any-append bad (x ∷ a) b = ground (arith, any-append bad a b)

pub join-Lacks :
    (bad : ℕ → Bool) (c : ℕ) (ps : List Text)
    → bad c ≡ false
    → All (Lacks bad) ps
    → Lacks bad (join c ps)
unfolding join
join-Lacks bad c [] hc h = refl
join-Lacks bad c (p ∷ []) hc h = h.0
join-Lacks bad c (p ∷ q ∷ ps) hc h =
    any-append bad p _ ∙ ground (arith, h.0, hc, join-Lacks bad c (q ∷ ps) hc h.1)

-- The bytes of the pieces, with one for the separator before each but the first.
abbrev pub total : List Text → ℕ
total [] = 0
total (p ∷ ps) = length p + 1 + total ps

pub length-join : (c : ℕ) (ps : List Text) → length (join c ps) ≤ total ps
unfolding join
length-join c [] = omega arith
length-join c (p ∷ []) = omega arith
length-join c (p ∷ q ∷ ps) =
    omega (arith, length-append p (c ∷ join c (q ∷ ps)), length-join c (q ∷ ps))

pub length-join_ne : (c : ℕ) (ps : List Text) → ps ≢ [] → length (join c ps) + 1 ≡ total ps
unfolding join
length-join_ne c [] ne = absurd (ne refl)
length-join_ne c (p ∷ []) ne = omega arith
length-join_ne c (p ∷ q ∷ ps) ne = omega (
  arith,
  length-append p (c ∷ join c (q ∷ ps)),
  length-join_ne c (q ∷ ps) (λ (e : q ∷ ps ≡ []). cc),
)

total-push_head : (x : ℕ) (ps : List Text) → ps ≢ [] → total (push_head x ps) ≡ suc (total ps)
total-push_head x [] ne = absurd (ne refl)
total-push_head x (p ∷ ps) ne = omega arith

total-split : (c : ℕ) (s : Text) → total (split c s) ≡ length s + 1
unfolding split
total-split c [] = refl
total-split c (x ∷ xs) = elim (Bool-cases (x == c)) [
  | inl cut ↦ rw cut (omega (arith, total-split c xs))
  | inr on ↦
      rw on (omega (arith, total-split c xs, total-push_head x (split c xs) (split-ne-nil c xs)))
]

total-select : (keep : Text → Bool) (ps : List Text) → total (select keep ps) ≤ total ps
total-select keep [] = omega arith
total-select keep (p ∷ ps) = ground (arith, total-select keep ps)

-- Dropping pieces and joining the rest gives no longer text.
pub length-join-select :
    (c : ℕ) (keep : Text → Bool) (s : Text)
    → select keep (split c s) ≢ []
    → length (join c (select keep (split c s))) ≤ length s
length-join-select c keep s ne = omega (
  arith,
  length-join_ne c (select keep (split c s)) ne,
  total-select keep (split c s),
  total-split c s,
)
