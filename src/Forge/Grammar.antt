-- ===== src/Forge/Grammar.antt =====
-- The grammar of project names: `valid_project` of src/model.rs.
use packslip.Base.{ℕ, Bool, false, not, ◌&&◌, ◌||◌, List, [], ◌∷◌, none, some, all, leb, ◌==◌}
use packslip.Base.Text.{Text, codes, text_eq, is_empty, split, contains_byte, last_byte, is_digit}

abbrev starts_with_byte : ℕ → Text → Bool
starts_with_byte b [] = false
starts_with_byte b (c ∷ _) = c == b

abbrev ends_with_byte : ℕ → Text → Bool
ends_with_byte b s = elim (last_byte s) [ none ↦ false | some c ↦ c == b ]

-- `host.contains("..")`
unfoldable pub has_two_dots : Text → Bool
has_two_dots [] = false
has_two_dots (c ∷ []) = false
has_two_dots (c ∷ d ∷ s) = (c == b'.' && d == b'.') || has_two_dots (d ∷ s)

abbrev is_lowercase : ℕ → Bool
is_lowercase b = leb b'a' b && leb b b'z'

abbrev is_alphanumeric : ℕ → Bool
is_alphanumeric b = is_lowercase b || (leb b'A' b && leb b b'Z') || is_digit b

unfoldable pub valid_label : Text → Bool
valid_label label =
    not (is_empty label)
    && not (starts_with_byte b'-' label)
    && not (ends_with_byte b'-' label)
    && all (λ b. is_lowercase b || is_digit b || b == b'-') label

unfoldable pub valid_host : Text → Bool
unfolding has_two_dots valid_label
valid_host host =
    contains_byte b'.' host
    && not (starts_with_byte b'.' host)
    && not (ends_with_byte b'.' host)
    && not (has_two_dots host)
    && all valid_label (split b'.' host)

unfoldable pub valid_segment : Text → Bool
valid_segment segment =
    not (is_empty segment)
    && not (text_eq segment (codes "."))
    && not (text_eq segment (codes ".."))
    && all (λ b. is_alphanumeric b || b == b'.' || b == b'_' || b == b'-' || b == b'~') segment

abbrev valid_parts : List Text → Bool
valid_parts [] = false
valid_parts (host ∷ segments) = valid_host host && all valid_segment segments

unfoldable pub valid_project : Text → Bool
unfolding valid_host valid_segment
valid_project project = valid_parts (split b'/' project)
