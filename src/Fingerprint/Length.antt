-- ===== src/Fingerprint/Length.antt =====
-- The lengths of what `from_str` of src/fingerprint.rs reads.
use mathlib.Core.Path.{subst}
use packslip.Base.{
  ℕ, suc, ◌+◌, ◌-◌, ◌%◌, ◌*◌, ◌^◌, ◌<◌, ◌≤◌, ◌≡◌, refl, sym, ap, ◌∙◌, true, not, [], ◌∷◌, ◌++◌,
  some, All, all, length, length-append, leb, ltb, ◌==◌, Bool-cases, Option-cases, inl, inr, ok,
  passed_eq_ok, ok-injective, arith,
}
use packslip.Base.Text.{Text, codes, strip_prefix, strip_prefix_iff}
use packslip.Fingerprint
use packslip.Fingerprint.{Fingerprint, alphabet, position, chars_count, decode}

position-ascii :
    (c : ℕ) (s : Text) {i : ℕ} → all (λ x. ltb x 128) s ≡ true → position c s ≡ some i → c < 128
unfolding position
position-ascii c [] a h = cc
position-ascii c (x ∷ xs) {i} a h = elim (Bool-cases (x == c)) [
  | inl e ↦ ground (arith, e, a)
  | inr e ↦ elim (Option-cases (position c xs)) [
    | inl f ↦ cc (rw (e, f, position) at h)
    | inr (j, f) ↦ position-ascii c xs (ground (arith, a)) f
  ]
]

alphabet-ascii : all (λ x. ltb x 128) alphabet ≡ true
unfolding codes
alphabet-ascii = refl

-- Eight bits for a byte, five for a character, and less than a byte left over.
record Counted (bits : ℕ) (bytes cs : Text) (f : Fingerprint) : Type 0 where
  left : ℕ
  few_left : left < 8
  counted : 8 * length f + left ≡ 8 * length bytes + bits + 5 * length cs
  ascii : All (λ c. c < 128) cs

full_step :
    (bits : ℕ) (bytes : Text) (c : ℕ) (cs : Text) (x : ℕ) {f : Fingerprint}
    → 8 ≤ bits + 5
    → c < 128
    → Counted (bits + 5 - 8) (bytes ++ (x ∷ [])) cs f
    → Counted bits bytes (c ∷ cs) f
full_step bits bytes c cs x {f} full a k = record {
  left = k.left;
  few_left = k.few_left;
  counted = omega (arith, full, k.counted, length-append bytes (x ∷ []));
  ascii = (a, k.ascii);
}

short_step :
    (bits : ℕ) (bytes : Text) (c : ℕ) (cs : Text) {f : Fingerprint}
    → c < 128
    → Counted (bits + 5) bytes cs f
    → Counted bits bytes (c ∷ cs) f
short_step bits bytes c cs {f} a k = record {
  left = k.left;
  few_left = k.few_left;
  counted = omega (arith, k.counted);
  ascii = (a, k.ascii);
}

decode-Counted :
    (cs : Text) (buffer bits : ℕ) (bytes : Text) {f : Fingerprint}
    → bits < 8
    → decode buffer bits bytes cs ≡ ok f
    → Counted bits bytes cs f
unfolding decode
decode-Counted [] buffer bits bytes {f} b h = elim (Bool-cases (buffer % (2 ^ bits) == 0)) [
  | inl e ↦
      let same : bytes ≡ f = ok-injective (rw (e, decode) at h) in
      subst (Counted bits bytes []) same
        (record { left = bits; few_left = b; counted = omega arith; ascii = tt })
  | inr e ↦ cc (rw (e, decode) at h)
]
decode-Counted (c ∷ cs) buffer bits bytes {f} b h = elim (Option-cases (position c alphabet)) [
  | inl e ↦ cc (rw (e, decode) at h)
  | inr (value, e) ↦ elim (Bool-cases (leb 8 (bits + 5))) [
    | inl full ↦
        full_step bits bytes c cs _ (ground (arith, full))
          (position-ascii c alphabet alphabet-ascii e)
          (decode-Counted cs _ _ _ (ground (arith, full)) (rw (e, full, decode) at h))
    | inr short ↦
        short_step bits bytes c cs (position-ascii c alphabet alphabet-ascii e)
          (decode-Counted cs _ _ _ (ground (arith, short)) (rw (e, short, decode) at h))
  ]
]

-- Bytes below 128 are characters of their own.
chars_count-ascii : (s : Text) → All (λ c. c < 128) s → chars_count s ≡ length s
unfolding chars_count
chars_count-ascii [] a = refl
chars_count-ascii (c ∷ s) a =
    let one : ltb c 128 ≡ true = ground (arith, a.0) in rw one (ap suc (chars_count-ascii s a.1))

-- A text that is read as a fingerprint is the prefix and twenty-six characters, and gives sixteen
-- bytes: the buffer of sixteen is filled, and nothing is written past it.
pub parse-length :
    (text : Text) {f : Fingerprint}
    → Fingerprint.parse text ≡ ok f
    → (length f ≡ 16)
      × ((encoded : Text) × (text ≡ codes "ps1_" ++ encoded) × (length encoded ≡ 26))
unfolding Fingerprint.parse
parse-length text {f} h = elim (Option-cases (strip_prefix text (codes "ps1_"))) [
  | inl e ↦ cc (rw (e, Fingerprint.parse) at h)
  | inr (encoded, e) ↦
      let (sized, decoded) =
        passed_eq_ok (not (chars_count encoded == 26)) _ _ (rw (e, Fingerprint.parse) at h) in
      let k = decode-Counted encoded 0 0 [] (omega arith) decoded in
      let count : chars_count encoded ≡ 26 = ground (arith, sized) in
      let long : length encoded ≡ 26 = sym (chars_count-ascii encoded k.ascii) ∙ count in
      (
        omega (arith, k.counted, k.few_left, long),
        (encoded, (strip_prefix_iff text (codes "ps1_") encoded).0 e, long),
      )
]
