-- ===== src/Document/Names.antt =====
-- The tests of names, formats and values in src/model.rs, and the names it takes from paths.
use packslip.Base.{
  ℕ, ◌-◌, Bool, false, not, ◌&&◌, ◌||◌, List, [], ◌∷◌, Option, none, some, length, all, any,
  reverse, ltb, leb, ◌==◌, if◌then◌else◌,
}
use packslip.Base.Text.{
  Text, codes, text_eq, is_empty, is_digit, take, drop, split, starts_with, strip_prefix,
  eq_ignore_ascii_case, to_ascii_lowercase,
}
use packslip.Document.{Bin}

-- `names.contains(name)`
abbrev pub is_in : Text → List Text → Bool
is_in name = any (text_eq name)

abbrev bare_formats : List Text
bare_formats = codes "raw" ∷ codes "gz" ∷ codes "xz" ∷ codes "zst" ∷ codes "bz2" ∷ []

unfoldable pub is_bare_format : Text → Bool
is_bare_format format = is_in format bare_formats

-- `text.strip_suffix(suffix)`
abbrev pub strip_suffix : Text → Text → Option Text
strip_suffix text suffix = elim (strip_prefix (reverse text) (reverse suffix)) [
  | none ↦ none
  | some rest ↦ some (reverse rest)
]

unfoldable pub bare_file_name : Text → Text → Text
bare_file_name artifact_name format =
    if not (text_eq format (codes "raw")) && is_bare_format format
    then elim (strip_suffix artifact_name (b'.' ∷ format)) [
      | none ↦ artifact_name
      | some name ↦ name
    ]
    else artifact_name

abbrev is_lower : ℕ → Bool
is_lower c = leb b'a' c && leb c b'z'

abbrev is_upper : ℕ → Bool
is_upper c = leb b'A' c && leb c b'Z'

abbrev is_token_byte : ℕ → Bool
is_token_byte c = is_lower c || is_digit c || c == b'_' || c == b'-' || c == b'.'

unfoldable pub valid_token : Text → Bool
valid_token [] = false
valid_token (c ∷ cs) = (is_lower c || is_digit c) && all is_token_byte (c ∷ cs)

abbrev last_or : Text → List Text → Text
last_or x [] = x
last_or x (p ∷ ps) = last_or p ps

unfoldable pub file_name : Text → Text
file_name path = last_or path (split b'/' path)

-- The pieces are those of `rsplit`, the last one first.
abbrev size_of : List Text → Option Text
size_of (_ ∷ _ ∷ size ∷ theme ∷ _) =
    if text_eq theme (codes "hicolor") && not (is_empty size) then some size else none
size_of _ = none

unfoldable pub hicolor_size : Text → Option Text
hicolor_size path = size_of (reverse (split b'/' path))

-- A byte that a character of UTF-8 goes on with: `get` refuses to cut before one.
abbrev pub is_continuation : Text → Bool
is_continuation [] = false
is_continuation (c ∷ cs) = leb 128 c && ltb c 192

unfoldable pub command_name : Text → Text
command_name name =
    let tail = drop (length name - 4) name in
    if not (is_continuation tail) && eq_ignore_ascii_case tail (codes ".exe")
    then take (length name - 4) name
    else name

-- `Bin::new`
unfoldable pub new : Text → Bin
new path = record { path = path; name = command_name (file_name path) }

-- `Bin::named`
unfoldable pub named : Text → Text → Bin
named path name = record { path = path; name = command_name name }

-- `is_ascii_whitespace`, or `is_ascii_control`
abbrev is_space_or_control : ℕ → Bool
is_space_or_control c = leb c 32 || c == 127

unfoldable pub valid_lib_name : Text → Bool
valid_lib_name name =
    not (is_empty name)
    && not (any (λ c. c == b'/' || c == b'\\') name)
    && not (any is_space_or_control name)

unfoldable pub valid_required_bin_name : Text → Bool
valid_required_bin_name name =
    valid_lib_name name
    && not (starts_with (reverse (to_ascii_lowercase name)) (reverse (codes ".exe")))

abbrev is_min_byte : ℕ → Bool
is_min_byte c = is_lower c || is_upper c || is_digit c || c == b'.' || c == b'-' || c == b'+'

unfoldable pub valid_min_version : Text → Bool
valid_min_version [] = false
valid_min_version (c ∷ cs) = is_digit c && all is_min_byte (c ∷ cs)

unfoldable pub valid_shell : Text → Bool
valid_shell shell =
    not (is_empty shell) && all (λ c. is_lower c || is_digit c || c == b'-' || c == b'_') shell

unfoldable pub valid_relative_path : Text → Bool
valid_relative_path path =
    not (is_empty path)
    && not (starts_with path (codes "/"))
    && all (λ segment. not (is_empty segment) && not (text_eq segment (codes "..")))
        (split b'/' path)

abbrev is_hex_byte : ℕ → Bool
is_hex_byte c = is_digit c || (leb b'a' c && leb c b'f')

unfoldable pub lowercase_hex : Text → ℕ → Bool
lowercase_hex s len = length s == len && all is_hex_byte s
