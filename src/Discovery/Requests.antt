-- ===== src/Discovery/Requests.antt =====
-- `numeric_request`, `same_version` and `matches_request` of src/discovery.rs. semver parses versions
-- and ranges.
pub mod Normal
pub mod Matches
use packslip.Base.{
  ℕ, Bool, true, false, not, ◌&&◌, ◌||◌, List, [], ◌∷◌, ◌++◌, Option, none, some, map, any, length,
  ◌==◌, if◌then◌else◌,
}
use packslip.Base.Text.{
  Text, codes, text_eq, text_eq?, is_empty, is_digit, contains_byte, split, split_once,
  strip_prefix,
}
use packslip.Extract.Names.Split.{join}
use packslip.Document.Versions.{core_and_tail, number_of, are_numbers, pad}
use packslip.Discovery.{Release}

abbrev pad_tailed : Text → List Text → List Text
pad_tailed [] numbers = numbers
pad_tailed (_ ∷ _) (major ∷ minor ∷ []) = pad (major ∷ minor ∷ [])
pad_tailed (_ ∷ _) numbers = numbers

abbrev pub without_v : Text → Text
without_v text = elim (strip_prefix text (codes "v")) [ none ↦ text | some rest ↦ rest ]

unfoldable pub numeric_request : Text → Option Text
numeric_request request =
    let (core, tail) = core_and_tail (without_v request) in
    let parts = split b'.' core in
    if are_numbers 1 parts
    then some (join b'.' (pad_tailed tail (map number_of parts)) ++ tail)
    else none

abbrev core_is : Text → Option (Text × Text) → Bool
core_is requested none = false
core_is requested (some (core, _)) = text_eq core requested

unfoldable pub same_version : Text → Text → Bool
same_version requested version =
    text_eq version requested
    || (not (contains_byte b'+' requested) && core_is requested (split_once b'+' version))

abbrev or_text : Option Text → Text → Text
or_text none text = text
or_text (some t) _ = t

abbrev pub is_range_byte : ℕ → Bool
is_range_byte c =
    c == b' '
    || c == b','
    || c == b'^'
    || c == b'~'
    || c == b'*'
    || c == b'<'
    || c == b'>'
    || c == b'='

abbrev pub first_is_digit : Text → Bool
first_is_digit [] = false
first_is_digit (c ∷ _) = is_digit c

-- What follows the prefix begins with a dot or a plus sign.
abbrev pub at_boundary : Option Text → Bool
at_boundary none = false
at_boundary (some []) = false
at_boundary (some (c ∷ _)) = c == b'.' || c == b'+'

abbrev is_alias : Text → Text → Text → Bool
is_alias tag request requested =
    text_eq tag request || text_eq? (strip_prefix tag (codes "v")) (some requested)

-- `semver` gives whether a version's prerelease part is empty, and `in_range` reads a range and
-- compares a version with it.
module _ (semver : Text → Option Bool) (in_range : Text → Text → Bool) where
  abbrev pub by_version : Text → Text → Option Bool → Bool
  by_version version requested none = false
  by_version version requested (some stable) =
      if not stable && not (contains_byte b'-' requested)
      then false
      else if first_is_digit requested && not (any is_range_byte requested)
      then at_boundary (strip_prefix version requested)
      else in_range requested version

  unfoldable pub matches_request : Release → Text → Bool
  matches_request release request =
      let numeric = numeric_request request in
      let requested = or_text numeric (without_v request) in
      let is_named : Bool = elim numeric [
        | none ↦ is_alias release.tag request requested
        | some _ ↦ false
      ] in
      if is_named || text_eq release.version requested
      then true
      else by_version release.version requested (semver release.version)
