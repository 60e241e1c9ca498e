-- ===== src/Fingerprint.antt =====
-- src/fingerprint.rs: the fingerprint of a signer, and reading one. SHA-256 is the parameter
-- `sha256`, from bytes to bytes. A character is counted by its first byte.
pub mod Length
pub mod Tests
use mathlib.Core.Option.{some-injective}
use Prim.Native.Nat.{◌-◌, ◌%◌, ◌/◌}
use packslip.Base.{
  ℕ, ◌+◌, ◌*◌, ◌^◌, ◌≡◌, ◌↔◌, refl, sym, ap, ◌∙◌, Bool, true, false, not, ◌&&◌, ◌||◌, List, [], ◌∷◌,
  ◌++◌, Option, none, some, all, select, length, leb, ltb, ◌==◌, if◌then◌else◌, Bool-cases,
  Option-cases, inl, inr, Result, ok, err, ◌>>=◌, ◌>>◌, refuse_if, arith,
}
use packslip.Base.Text.{
  Text, codes, text_eq, text_eq_iff, is_empty, contains_byte, is_digit, strip_prefix, take,
}
use packslip.Forge.Pins.{SourceRepository}

-- The sixteen bytes.
abbrev pub Fingerprint : Type 0
Fingerprint = Text

pub data ParseError : Type 0 where
  prefix : ParseError
  wrong_length : ℕ → ParseError
  character : ParseError
  trailing_bits : ParseError

pub data Mismatch : Type 0 where
  no_repository_id : Mismatch
  different : Fingerprint → Fingerprint → Mismatch

abbrev domain : Text
domain = codes "packslip-signer-v1" ++ (0 ∷ [])

abbrev pub alphabet : Text
alphabet = codes "abcdefghijklmnopqrstuvwxyz234567"

module _ (sha256 : Text → Text) where
  unfoldable pub fingerprint_of : Text → Text → Option Fingerprint
  fingerprint_of issuer repository_id =
      if is_empty issuer
        || contains_byte 0 issuer
        || is_empty repository_id
        || not (all is_digit repository_id)
      then none
      else some (take 16 (sha256 (domain ++ issuer ++ (0 ∷ repository_id))))

  abbrev pub of_source : Text → Option Text → Option Fingerprint
  of_source issuer none = none
  of_source issuer (some id) = fingerprint_of issuer id

  unfoldable pub of_signer : Option Text → Option SourceRepository → Option Fingerprint
  of_signer none source = none
  of_signer (some issuer) none = none
  of_signer (some issuer) (some source) = of_source issuer source.id

  abbrev compare_fingerprints : Fingerprint → Option Fingerprint → Result Mismatch (Unit {0})
  compare_fingerprints expected none = err no_repository_id
  compare_fingerprints expected (some actual) =
      if text_eq actual expected then ok tt else err (different expected actual)

  -- `self.verify(issuer, source)`
  unfoldable pub verify :
      Fingerprint → Option Text → Option SourceRepository → Result Mismatch (Unit {0})
  verify self issuer source = compare_fingerprints self (of_signer issuer source)

  compare_fingerprints_iff :
      (self : Fingerprint) (actual : Option Fingerprint)
      → (compare_fingerprints self actual ≡ ok tt) ↔ (actual ≡ some self)
  compare_fingerprints_iff self none = (λ h. cc, λ h. cc)
  compare_fingerprints_iff self (some actual) = elim (Bool-cases (text_eq actual self)) [
    | inl e ↦ (λ h. ap some ((text_eq_iff actual self).0 e), λ h. rw e refl)
    | inr e ↦ (
      λ h. cc (rw e at h),
      λ h. absurd (cc (sym e ∙ (text_eq_iff actual self).1 (some-injective _ _ h))),
    )
  ]

  -- A fingerprint fits a certificate exactly when it is the one of its issuer and repository ID.
  pub verify_iff :
      (self : Fingerprint) (issuer : Option Text) (source : Option SourceRepository)
      → (verify self issuer source ≡ ok tt) ↔ (of_signer issuer source ≡ some self)
  unfolding verify
  verify_iff self issuer source = compare_fingerprints_iff self (of_signer issuer source)

-- `ALPHABET.iter().position(...)`
unfoldable pub position : ℕ → Text → Option ℕ
position c [] = none
position c (x ∷ xs) =
    let rest = position c xs in
    if x == c then some 0 else elim rest [ none ↦ none | some i ↦ some (1 + i) ]

-- The bytes that a character begins with: not a continuation byte.
unfoldable pub chars_count : Text → ℕ
chars_count s = length (select (λ b. ltb b 128 || leb 192 b) s)

-- The loop over the characters, with `buffer`, `bits` and the bytes so far.
unfoldable pub decode : ℕ → ℕ → Text → Text → Result ParseError Fingerprint
unfolding position
decode buffer bits bytes [] = if buffer % (2 ^ bits) == 0 then ok bytes else err trailing_bits
decode buffer bits bytes (c ∷ cs) = elim (position c alphabet) [
  | none ↦ err character
  | some value ↦
      let buffer' = (buffer * 32 + value) % 2 ^ 16 in
      let bits' = bits + 5 in
      elim (leb 8 bits') [
        | true ↦ decode buffer' (bits' - 8) (bytes ++ ((buffer' / 2 ^ (bits' - 8)) % 256 ∷ [])) cs
        | false ↦ decode buffer' bits' bytes cs
      ]
]

unfoldable pub parse : Text → Result ParseError Fingerprint
unfolding decode chars_count
parse text = elim (strip_prefix text (codes "ps1_")) [
  | none ↦ err prefix
  | some encoded ↦ do
    refuse_if (not (chars_count encoded == 26)) (wrong_length (chars_count encoded))
    decode 0 0 [] encoded
]
