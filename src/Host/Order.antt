-- ===== src/Host/Order.antt =====
-- `compare` of src/install_host.rs against the order of versions by components.
use mathlib.Core.Path.{subst}
use packslip.Base.{
  ℕ, zero, suc, ◌≤◌, ◌<◌, ◌≡◌, ◌↔◌, inl, inr, refl, sym, ◌∙◌, arith, List, [], ◌∷◌, length, ltb,
  Bool-cases,
}
use packslip.Host.{Ordering, less, equal, greater, resize, cmp, max, compare_values}

-- A component that a version does not have is zero.
abbrev pub component : ℕ → List ℕ → ℕ
component i [] = 0
component zero (x ∷ xs) = x
component (suc i) (x ∷ xs) = component i xs

-- The versions first differ at a component, and the first one's is lower there.
abbrev pub IsBelow : List ℕ → List ℕ → Type 0
IsBelow xs ys =
    (i : ℕ) × ((j : ℕ) → j < i → component j xs ≡ component j ys)
    × (component i xs < component i ys)

abbrev pub AreEqual : List ℕ → List ℕ → Type 0
AreEqual xs ys = (i : ℕ) → component i xs ≡ component i ys

abbrev head_of : List ℕ → ℕ
head_of xs = component 0 xs

abbrev tail_of : List ℕ → List ℕ
tail_of [] = []
tail_of (x ∷ xs) = xs

resize-suc : (n : ℕ) (xs : List ℕ) → resize (suc n) xs ≡ head_of xs ∷ resize n (tail_of xs)
unfolding resize
resize-suc n [] = refl
resize-suc n (x ∷ xs) = refl

component-suc : (i : ℕ) (xs : List ℕ) → component (suc i) xs ≡ component i (tail_of xs)
component-suc i [] = refl
component-suc i (x ∷ xs) = refl

component-beyond : (i : ℕ) (xs : List ℕ) → length xs ≤ i → component i xs ≡ 0
component-beyond i [] h = refl
component-beyond zero (x ∷ xs) h = absurd (omega (arith, h))
component-beyond (suc i) (x ∷ xs) h = component-beyond i xs (omega (arith, h))

-- What a comparison says of the components.
abbrev pub Verdict : Ordering → List ℕ → List ℕ → Type 0
Verdict less xs ys = IsBelow xs ys
Verdict equal xs ys = AreEqual xs ys
Verdict greater xs ys = IsBelow ys xs

IsBelow-lift :
    (xs ys : List ℕ) → head_of xs ≡ head_of ys → IsBelow (tail_of xs) (tail_of ys) → IsBelow xs ys
IsBelow-lift xs ys e (i, f, l) = (suc i, before, rw (component-suc i xs, component-suc i ys) l)
  where
    before : (j : ℕ) → j < suc i → component j xs ≡ component j ys
    before zero h = e
    before (suc j) h = component-suc j xs ∙ f j (omega (arith, h)) ∙ sym (component-suc j ys)

Verdict-lift :
    (o : Ordering) (xs ys : List ℕ)
    → head_of xs ≡ head_of ys
    → Verdict o (tail_of xs) (tail_of ys)
    → Verdict o xs ys
Verdict-lift less xs ys e v = IsBelow-lift xs ys e v
Verdict-lift greater xs ys e v = IsBelow-lift ys xs (sym e) v
Verdict-lift equal xs ys e v = all
  where
    all : (i : ℕ) → component i xs ≡ component i ys
    all zero = e
    all (suc i) = component-suc i xs ∙ v i ∙ sym (component-suc i ys)

IsBelow-head : (xs ys : List ℕ) → head_of xs < head_of ys → IsBelow xs ys
IsBelow-head xs ys h = (0, λ j l. absurd (omega (arith, l)), h)

tail-length : (n : ℕ) (xs : List ℕ) → length xs ≤ suc n → length (tail_of xs) ≤ n
tail-length n [] h = omega arith
tail-length n (x ∷ xs) h = omega (arith, h)

cmp-Verdict :
    (n : ℕ) (xs ys : List ℕ)
    → length xs ≤ n
    → length ys ≤ n
    → Verdict (cmp (resize n xs) (resize n ys)) xs ys
unfolding cmp resize
cmp-Verdict zero xs ys a b =
    λ i. component-beyond i xs (omega (arith, a)) ∙ sym (component-beyond i ys (omega (arith, b)))
cmp-Verdict (suc n) xs ys a b = elim (Bool-cases (ltb (head_of xs) (head_of ys))) [
  | inl l ↦ rw (resize-suc n xs, resize-suc n ys, l) (IsBelow-head xs ys (ground (arith, l)))
  | inr l ↦ elim (Bool-cases (ltb (head_of ys) (head_of xs))) [
    | inl g ↦ rw (resize-suc n xs, resize-suc n ys, l, g) (IsBelow-head ys xs (ground (arith, g)))
    | inr g ↦
        rw (resize-suc n xs, resize-suc n ys, l, g)
          (Verdict-lift (cmp (resize n (tail_of xs)) (resize n (tail_of ys))) xs ys
            (ground (arith, l, g))
            (cmp-Verdict n (tail_of xs) (tail_of ys) (tail-length n xs a) (tail-length n ys b)))
  ]
]

IsBelow-asym : (xs ys : List ℕ) → IsBelow xs ys → ¬ IsBelow ys xs
IsBelow-asym xs ys (i, f, l) (j, g, m) = elim (Bool-cases (ltb i j)) [
  | inl h ↦ let e = g i (ground (arith, h)) in omega (arith, e, l)
  | inr h ↦ elim (Bool-cases (ltb j i)) [
    | inl k ↦ let e = f j (ground (arith, k)) in omega (arith, e, m)
    | inr k ↦
        let e : i ≡ j = ground (arith, h, k) in
        let l' : component j xs < component j ys =
          subst (λ u. component u xs < component u ys) e l in
        omega (arith, l', m)
  ]
]

IsBelow-unequal : (xs ys : List ℕ) → IsBelow xs ys → ¬ AreEqual xs ys
IsBelow-unequal xs ys (i, f, l) e = let q = e i in omega (arith, q, l)

Verdict-unique : (o o' : Ordering) (xs ys : List ℕ) → Verdict o xs ys → Verdict o' xs ys → o ≡ o'
Verdict-unique less less xs ys v w = refl
Verdict-unique equal equal xs ys v w = refl
Verdict-unique greater greater xs ys v w = refl
Verdict-unique less equal xs ys v w = absurd (IsBelow-unequal xs ys v w)
Verdict-unique less greater xs ys v w = absurd (IsBelow-asym xs ys v w)
Verdict-unique equal less xs ys v w = absurd (IsBelow-unequal xs ys w v)
Verdict-unique equal greater xs ys v w = absurd (IsBelow-unequal ys xs w (λ i. sym (v i)))
Verdict-unique greater less xs ys v w = absurd (IsBelow-asym xs ys w v)
Verdict-unique greater equal xs ys v w = absurd (IsBelow-unequal ys xs v (λ i. sym (w i)))

-- A comparison says less, greater or equal exactly when the versions' components are, in order,
-- where a component that a version does not have counts as zero.
pub compare_values_iff :
    (xs ys : List ℕ) (o : Ordering) → (compare_values xs ys ≡ o) ↔ Verdict o xs ys
unfolding compare_values
compare_values_iff xs ys o =
    let v : Verdict (compare_values xs ys) xs ys =
      cmp-Verdict (max (length xs) (length ys)) xs ys (ground arith) (ground arith) in
    (λ e. subst (λ u. Verdict u xs ys) e v, λ w. Verdict-unique _ o xs ys v w)
