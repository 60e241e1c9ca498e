-- ===== src/Base/Text.antt =====
-- Rust's `str` as its UTF-8 bytes, and the methods of `str` that the program calls.
use Prim.Native.Nat.{ℕ, zero, suc, ◌+◌, ◌-◌}
use Prim.Native.Char.{code}
use Prim.Native.String.{String}
use mathlib.Core.Path.{◌≡◌, refl, sym}
use mathlib.Core.Logic.{◌↔◌}
use mathlib.Core.Bool.{Bool, true, false, ◌&&◌}
use mathlib.Core.Option.{Option, none, some}
use mathlib.Core.List.{List, [], ◌∷◌, ◌++◌, map}
use native.Mathlib.Omega.{arith}
use packslip.Base.Tests.{leb, ◌==◌, if◌then◌else◌, eq_of_iff}
use packslip.Base.Lists.{any}

abbrev pub Text : Type 0
Text = List ℕ

-- The bytes of an ASCII literal.
unfoldable pub codes : String → Text
codes String.[] = []
codes (String.◌∷◌ c s) = code c ∷ codes s

unfoldable pub text_eq : Text → Text → Bool
text_eq [] [] = true
text_eq (x ∷ xs) (y ∷ ys) = x == y && text_eq xs ys
text_eq _ _ = false

-- `option == option` on texts.
abbrev pub text_eq? : Option Text → Option Text → Bool
text_eq? none none = true
text_eq? (some a) (some b) = text_eq a b
text_eq? _ _ = false

abbrev pub contains_byte : ℕ → Text → Bool
contains_byte c = any (λ x. x == c)

abbrev pub is_empty : Text → Bool
is_empty [] = true
is_empty (_ ∷ _) = false

unfoldable pub strip_prefix : Text → Text → Option Text
strip_prefix s [] = some s
strip_prefix [] (p ∷ ps) = none
strip_prefix (x ∷ xs) (p ∷ ps) = let rest = strip_prefix xs ps in if x == p then rest else none

unfoldable pub starts_with : Text → Text → Bool
starts_with s [] = true
starts_with [] (p ∷ ps) = false
starts_with (x ∷ xs) (p ∷ ps) = x == p && starts_with xs ps

-- The last byte, if there is one.
unfoldable pub last_byte : Text → Option ℕ
last_byte [] = none
last_byte (x ∷ []) = some x
last_byte (x ∷ y ∷ ys) = last_byte (y ∷ ys)

abbrev pub push_head : ℕ → List Text → List Text
push_head x [] = (x ∷ []) ∷ []
push_head x (p ∷ ps) = (x ∷ p) ∷ ps

-- `s.split(c)`: always at least one piece.
unfoldable pub split : ℕ → Text → List Text
split c [] = [] ∷ []
split c (x ∷ xs) = let rest = split c xs in if x == c then [] ∷ rest else push_head x rest

-- `s.split_once(c)`
unfoldable pub split_once : ℕ → Text → Option (Text × Text)
split_once c [] = none
split_once c (x ∷ xs) =
    let rest = split_once c xs in
    if x == c then some ([], xs) else elim rest [ none ↦ none | some (a, b) ↦ some (x ∷ a, b) ]

-- `s.split_once("//")`
unfoldable pub split_slashes : Text → Option (Text × Text)
split_slashes [] = none
split_slashes (x ∷ []) = none
split_slashes (x ∷ y ∷ ys) =
    let rest = split_slashes (y ∷ ys) in
    if x == b'/' && y == b'/'
    then some ([], ys)
    else elim rest [ none ↦ none | some (a, b) ↦ some (x ∷ a, b) ]

-- `s.rsplit_once(c)`: at the last `c`.
unfoldable pub rsplit_once : ℕ → Text → Option (Text × Text)
rsplit_once c [] = none
rsplit_once c (x ∷ xs) = elim (rsplit_once c xs) [
  | some (a, b) ↦ some (x ∷ a, b)
  | none ↦ if x == c then some ([], xs) else none
]

unfoldable pub drop : ℕ → Text → Text
drop zero s = s
drop (suc n) [] = []
drop (suc n) (x ∷ xs) = drop n xs

unfoldable pub take : ℕ → Text → Text
take zero s = []
take (suc n) [] = []
take (suc n) (x ∷ xs) = x ∷ take n xs

abbrev after_first : Option ℕ → Option ℕ
after_first none = none
after_first (some i) = some (suc i)

-- `s.match_indices(c).nth(n)`
unfoldable pub nth_index : ℕ → ℕ → Text → Option ℕ
nth_index c n [] = none
nth_index c zero (x ∷ xs) = elim (x == c) [
  | true ↦ some 0
  | false ↦ after_first (nth_index c zero xs)
]
nth_index c (suc n) (x ∷ xs) = elim (x == c) [
  | true ↦ after_first (nth_index c n xs)
  | false ↦ after_first (nth_index c (suc n) xs)
]

unfoldable pub lower : ℕ → ℕ
lower c = if leb b'A' c && leb c b'Z' then c + 32 else c

unfoldable pub upper : ℕ → ℕ
upper c = if leb b'a' c && leb c b'z' then c - 32 else c

abbrev pub is_digit : ℕ → Bool
is_digit c = leb b'0' c && leb c b'9'

unfoldable pub to_ascii_lowercase : Text → Text
unfolding lower
to_ascii_lowercase = map lower

unfoldable pub eq_ignore_ascii_case : Text → Text → Bool
unfolding text_eq to_ascii_lowercase
eq_ignore_ascii_case a b = text_eq (to_ascii_lowercase a) (to_ascii_lowercase b)

-- Laws.
pub text_eq_iff : (a b : Text) → (text_eq a b ≡ true) ↔ (a ≡ b)
unfolding text_eq
text_eq_iff [] [] = ground arith
text_eq_iff (x ∷ a) (y ∷ b) = ground (arith, text_eq_iff a b)
text_eq_iff [] (y ∷ b) = ground arith
text_eq_iff (x ∷ a) [] = ground arith

pub text_eq_refl : (a : Text) → text_eq a a ≡ true
text_eq_refl a = (text_eq_iff a a).1 refl

pub text_eq_sym : (a b : Text) → text_eq a b ≡ text_eq b a
text_eq_sym a b =
    eq_of_iff _ _ (λ h. (text_eq_iff b a).1 (sym ((text_eq_iff a b).0 h)))
      (λ h. (text_eq_iff a b).1 (sym ((text_eq_iff b a).0 h)))

pub eq_ignore_ascii_case_iff :
    (a b : Text) → (eq_ignore_ascii_case a b ≡ true) ↔ (to_ascii_lowercase a ≡ to_ascii_lowercase b)
unfolding eq_ignore_ascii_case
eq_ignore_ascii_case_iff a b = text_eq_iff _ _

pub starts_with_iff : (s p : Text) → (starts_with s p ≡ true) ↔ ((r : Text) × (s ≡ p ++ r))
unfolding starts_with
starts_with_iff s [] = (λ h. (s, refl), λ h. refl)
starts_with_iff [] (p ∷ ps) = (λ h. cc, λ (r, e). cc)
starts_with_iff (x ∷ xs) (p ∷ ps) = (
  λ h. let (r, e) = (starts_with_iff xs ps).0 (ground arith) in (r, ground arith),
  λ (r, e). ground (arith, (starts_with_iff xs ps).1 (r, ground arith)),
)

pub strip_prefix_iff : (s p r : Text) → (strip_prefix s p ≡ some r) ↔ (s ≡ p ++ r)
unfolding strip_prefix
strip_prefix_iff s [] r = ground arith
strip_prefix_iff [] (p ∷ ps) r = ground arith
strip_prefix_iff (x ∷ xs) (p ∷ ps) r = ground (arith, strip_prefix_iff xs ps r)
