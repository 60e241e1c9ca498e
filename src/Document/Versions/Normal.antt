-- ===== src/Document/Versions/Normal.antt =====
-- `normalize_version` of src/model.rs and `numeric_request` of src/discovery.rs on a version that
-- is normalized already.
use mathlib.Core.Path.{subst}
use mathlib.Core.Option.{some-injective}
use packslip.Base.{
  ℕ, ◌≡◌, refl, sym, ap, ◌∙◌, ◌⊎◌, inl, inr, Bool, true, false, not, ◌||◌, arith, List, [], ◌∷◌,
  ◌++◌, some, map, all, any, length, ◌==◌, Bool-cases, All,
}
use packslip.Base.Text.{Text, is_digit, split}
use packslip.Extract.Names.Split.{join, Lacks, split-join, join-Lacks}
use packslip.Document.Versions.{
  core_and_tail, is_number, trim_zeros, number_of, pad, are_numbers, normalize_version,
}

abbrev pub is_cut : ℕ → Bool
is_cut x = x == b'-' || x == b'+'

abbrev pub begins_cut : Text → Bool
begins_cut [] = true
begins_cut (x ∷ _) = is_cut x

-- A core without a cut, and a tail that begins with one, are found again.
core_and_tail-append :
    (core tail : Text)
    → Lacks is_cut core
    → begins_cut tail ≡ true
    → core_and_tail (core ++ tail) ≡ (core, tail)
unfolding core_and_tail
core_and_tail-append [] [] c t = refl
core_and_tail-append [] (x ∷ xs) c t = rw t refl
core_and_tail-append (x ∷ core) tail c t =
    let e : is_cut x ≡ false = ground arith in
    let rest : Lacks is_cut core = ground arith in
    rw (e, core_and_tail-append core tail rest t) refl

core_and_tail-Lacks :
    (text : Text) → Lacks is_cut (core_and_tail text).0 × (begins_cut (core_and_tail text).1 ≡ true)
unfolding core_and_tail
core_and_tail-Lacks [] = (refl, refl)
core_and_tail-Lacks (x ∷ xs) = elim (Bool-cases (is_cut x)) [
  | inl e ↦ rw e (refl, e)
  | inr e ↦ let (a, b) = core_and_tail-Lacks xs in rw e (rw e a, b)
]

-- A number without a zero in front of another digit.
abbrev pub IsCanonical : Text → Type 0
IsCanonical n = (is_number n ≡ true) × (number_of n ≡ n)

trim_zeros-cases :
    (p : Text)
    → all is_digit p ≡ true
    → (trim_zeros p ≡ [])
      ⊎ ((x : ℕ) × (xs : Text) × (trim_zeros p ≡ x ∷ xs)
          × ((x == b'0') ≡ false)
          × (all is_digit (x ∷ xs) ≡ true))
trim_zeros-cases [] h = inl refl
trim_zeros-cases (x ∷ xs) h = elim (Bool-cases (x == b'0')) [
  | inl e ↦ rw e (trim_zeros-cases xs (ground arith))
  | inr e ↦ inr (x, xs, rw e refl, e, h)
]

number_of-IsCanonical : (p : Text) → is_number p ≡ true → IsCanonical (number_of p)
unfolding number_of
number_of-IsCanonical p h = elim (trim_zeros-cases p (ground arith)) [
  | inl e ↦ rw e (refl, refl)
  | inr (x, xs, e, z, d) ↦ rw e (d, rw z refl)
]

digits-Lacks :
    (bad : ℕ → Bool) (n : Text)
    → ((x : ℕ) → is_digit x ≡ true → bad x ≡ false)
    → all is_digit n ≡ true
    → Lacks bad n
digits-Lacks bad [] f h = refl
digits-Lacks bad (x ∷ xs) f h =
    let here = f x (ground arith) in
    let later = digits-Lacks bad xs f (ground arith) in ground arith

IsCanonical-Lacks :
    (bad : ℕ → Bool) (ns : List Text)
    → ((x : ℕ) → is_digit x ≡ true → bad x ≡ false)
    → All IsCanonical ns
    → All (Lacks bad) ns
IsCanonical-Lacks bad [] f h = tt
IsCanonical-Lacks bad (n ∷ ns) f h =
    (digits-Lacks bad n f (ground (arith, h.0.0)), IsCanonical-Lacks bad ns f h.1)

pub are_numbers-IsCanonical :
    (parts : List Text)
    → any (λ p. not (is_number p)) parts ≡ false
    → All IsCanonical (map number_of parts)
are_numbers-IsCanonical [] h = tt
are_numbers-IsCanonical (p ∷ parts) h =
    (number_of-IsCanonical p (ground arith), are_numbers-IsCanonical parts (ground arith))

pub IsCanonical-numbers :
    (ns : List Text)
    → All IsCanonical ns
    → (any (λ p. not (is_number p)) ns ≡ false) × (map number_of ns ≡ ns)
IsCanonical-numbers [] h = (refl, refl)
IsCanonical-numbers (n ∷ ns) ((a, b), hs) =
    let (c, d) = IsCanonical-numbers ns hs in (rw (a, c) refl, rw (b, d) refl)

-- Three canonical numbers are what a core is read as.
pub record IsSplit (v : Text) (ns : List Text) (tail : Text) : Type 0 where
  pub three : length ns ≡ 3
  pub numbers : All IsCanonical ns
  pub core : core_and_tail v ≡ (join b'.' ns, tail)
  pub pieces : split b'.' (join b'.' ns) ≡ ns
  pub whole : v ≡ join b'.' ns ++ tail

not_dot : (x : ℕ) → is_digit x ≡ true → (x == b'.') ≡ false
not_dot x h = ground arith

not_cut : (x : ℕ) → is_digit x ≡ true → is_cut x ≡ false
not_cut x h = ground arith

IsSplit-of :
    (ns : List Text) (tail : Text)
    → length ns ≡ 3
    → All IsCanonical ns
    → begins_cut tail ≡ true
    → IsSplit (join b'.' ns ++ tail) ns tail
IsSplit-of ns tail l c t = record {
  three = l;
  numbers = c;
  core =
      core_and_tail-append (join b'.' ns) tail
        (join-Lacks is_cut b'.' ns refl (IsCanonical-Lacks is_cut ns not_cut c)) t;
  pieces =
      split-join b'.' ns (λ e. absurd (omega (arith, rw e at l)))
        (IsCanonical-Lacks (λ x. x == b'.') ns not_dot c);
  whole = refl;
}

pad-three :
    (parts : List Text) → are_numbers 2 parts ≡ true → length (pad (map number_of parts)) ≡ 3
pad-three [] h = cc
pad-three (a ∷ []) h = cc
pad-three (a ∷ b ∷ []) h = refl
pad-three (a ∷ b ∷ c ∷ []) h = refl
pad-three (a ∷ b ∷ c ∷ d ∷ parts) h = ground arith

pub pad-IsCanonical : (ns : List Text) → All IsCanonical ns → All IsCanonical (pad ns)
unfolding number_of
pad-IsCanonical [] h = tt
pad-IsCanonical (a ∷ []) h = h
pad-IsCanonical (a ∷ b ∷ []) h = (h.0, (h.1.0, ((refl, refl), tt)))
pad-IsCanonical (a ∷ b ∷ c ∷ ns) h = h

pub normalize_version-IsSplit :
    (text v : Text)
    → normalize_version text ≡ some v
    → (ns : List Text) × (tail : Text) × IsSplit v ns tail
unfolding normalize_version
normalize_version-IsSplit text v h =
    let parts = split b'.' (core_and_tail text).0 in
    let ns = pad (map number_of parts) in
    let tail = (core_and_tail text).1 in
    elim (Bool-cases (are_numbers 2 parts)) [
      | inr e ↦ cc (rw (e, normalize_version) at h)
      | inl e ↦ (
        ns,
        tail,
        subst (λ u. IsSplit u ns tail) (some-injective _ _ (rw (e, normalize_version) at h))
            (IsSplit-of ns tail (pad-three parts e)
              (pad-IsCanonical (map number_of parts)
                (are_numbers-IsCanonical parts (ground (arith, e))))
              (core_and_tail-Lacks text).1),
      )
    ]

pad_id : (ns : List Text) → length ns ≡ 3 → pad ns ≡ ns
pad_id [] h = refl
pad_id (a ∷ []) h = refl
pad_id (a ∷ b ∷ []) h = absurd (omega (arith, h))
pad_id (a ∷ b ∷ c ∷ ns) h = refl

-- A normalized version is its own normal form.
pub IsSplit-normal :
    (v : Text) (ns : List Text) (tail : Text) → IsSplit v ns tail → normalize_version v ≡ some v
unfolding normalize_version
IsSplit-normal v ns tail s =
    let (a, b) = IsCanonical-numbers ns s.numbers in
    rw (s.core, s.pieces, a, b, s.three, pad_id ns s.three) (ap some (sym s.whole))

pub first-digit :
    (n : Text) (more : List Text)
    → IsCanonical n
    → (d : ℕ) × (r : Text) × (join b'.' (n ∷ more) ≡ d ∷ r) × (is_digit d ≡ true)
unfolding join
first-digit [] more h = cc
first-digit (d ∷ n) [] h = (d, n, refl, ground (arith, h.0))
first-digit (d ∷ n) (m ∷ more) h =
    (d, n ++ (b'.' ∷ join b'.' (m ∷ more)), refl, ground (arith, h.0))

pub IsSplit-digit :
    (v : Text) (ns : List Text) (tail : Text)
    → IsSplit v ns tail
    → (d : ℕ) × (r : Text) × (v ≡ d ∷ r) × (is_digit d ≡ true)
IsSplit-digit v [] tail s = absurd (omega (arith, s.three))
IsSplit-digit v (n ∷ ns) tail s =
    let (d, r, e, h) = first-digit n ns s.numbers.0 in (d, r ++ tail, s.whole ∙ ap (◌++ tail) e, h)
