-- ===== src/Fingerprint/Tests.antt =====
-- Runs of src/fingerprint.rs at concrete inputs.
use packslip.Base.{◌≡◌, refl, [], ◌∷◌, ◌++◌, length, ok}
use packslip.Base.Text.{Text, codes, strip_prefix}
use packslip.Fingerprint
use packslip.Fingerprint.{Fingerprint, decode, position, chars_count}
use packslip.Fingerprint.Length.{parse-length}

abbrev hk : Text
hk = codes "ps1_snirenkjwr7m5ozgcufameodnm"

abbrev hk_bytes : Fingerprint
hk_bytes = 147 ∷ 81 ∷ 18 ∷ 53 ∷ 73 ∷ 180 ∷ 126 ∷ 206 ∷ 187 ∷ 38 ∷ 21 ∷ 10 ∷ 6 ∷ 17 ∷ 195 ∷ 107 ∷ []

hk-parse : Fingerprint.parse hk ≡ ok hk_bytes
unfolding Fingerprint.parse strip_prefix codes
hk-parse = refl

parse-length_example :
    (length hk_bytes ≡ 16)
    × ((encoded : Text) × (hk ≡ codes "ps1_" ++ encoded) × (length encoded ≡ 26))
parse-length_example = parse-length hk hk-parse
