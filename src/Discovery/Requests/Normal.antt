-- ===== src/Discovery/Requests/Normal.antt =====
-- `numeric_request` of src/discovery.rs on the versions that `normalize_version` of src/model.rs
-- makes.
use mathlib.Core.Path.{subst}
use packslip.Base.{ℕ, ◌≡◌, refl, sym, ap, true, false, arith, List, [], ◌∷◌, some, length, ◌==◌}
use packslip.Base.Text.{Text, codes, is_digit, strip_prefix}
use packslip.Document.Versions.{normalize_version}
use packslip.Document.Versions.Normal.{
  IsSplit, IsSplit-normal, IsSplit-digit, IsCanonical-numbers, normalize_version-IsSplit,
}
use packslip.Discovery.Requests.{without_v, pad_tailed, numeric_request}

digit-without_v : (d : ℕ) (r : Text) → is_digit d ≡ true → without_v (d ∷ r) ≡ d ∷ r
unfolding strip_prefix codes
digit-without_v d r h =
    let e : (d == b'v') ≡ false = ground arith in rw (e, without_v, strip_prefix) refl

pad_tailed_id : (tail : Text) (ns : List Text) → length ns ≡ 3 → pad_tailed tail ns ≡ ns
pad_tailed_id [] ns h = refl
pad_tailed_id (x ∷ xs) [] h = refl
pad_tailed_id (x ∷ xs) (a ∷ []) h = refl
pad_tailed_id (x ∷ xs) (a ∷ b ∷ []) h = absurd (omega (arith, h))
pad_tailed_id (x ∷ xs) (a ∷ b ∷ c ∷ ns) h = refl

IsSplit-request :
    (v : Text) (ns : List Text) (tail : Text) → IsSplit v ns tail → numeric_request v ≡ some v
unfolding numeric_request
IsSplit-request v ns tail s =
    let (d, r, e, h) = IsSplit-digit v ns tail s in
    let same : without_v v ≡ v = subst (λ u. without_v u ≡ u) (sym e) (digit-without_v d r h) in
    let (a, b) = IsCanonical-numbers ns s.numbers in
    rw (same, s.core, s.pieces, a, b, s.three, pad_tailed_id tail ns s.three)
      (ap some (sym s.whole))

-- A version that `normalize_version` makes is its own normal form, and as a request it asks for
-- just itself.
pub normalize_version-stable :
    (text v : Text)
    → normalize_version text ≡ some v
    → (normalize_version v ≡ some v) × (numeric_request v ≡ some v)
normalize_version-stable text v h =
    let (ns, tail, s) = normalize_version-IsSplit text v h in
    (IsSplit-normal v ns tail s, IsSplit-request v ns tail s)
