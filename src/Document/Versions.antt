-- ===== src/Document/Versions.antt =====
-- `normalize_version` and `tag_version` of src/model.rs. semver decides what a version is.
pub mod Normal
use packslip.Base.{
  ℕ, Bool, true, false, not, ◌&&◌, ◌||◌, List, [], ◌∷◌, ◌++◌, Option, none, some, map, all, any,
  length, leb, ◌==◌, if◌then◌else◌,
}
use packslip.Base.Text.{
  Text, codes, text_eq, is_empty, is_digit, split, strip_prefix, take, drop, eq_ignore_ascii_case,
}
use packslip.Extract.Names.Split.{join}
use packslip.Forge.Names.{repository, repository_subpath}
use packslip.Document.Names.{file_name, is_continuation}

-- The text before the first `-` or `+`, and the rest with it.
unfoldable pub core_and_tail : Text → Text × Text
core_and_tail [] = ([], [])
core_and_tail (x ∷ xs) =
    let (core, tail) = core_and_tail xs in
    if x == b'-' || x == b'+' then ([], x ∷ xs) else (x ∷ core, tail)

abbrev pub is_number : Text → Bool
is_number p = not (is_empty p) && all is_digit p

-- `p.trim_start_matches('0')`
abbrev pub trim_zeros : Text → Text
trim_zeros [] = []
trim_zeros (x ∷ xs) = let rest = trim_zeros xs in if x == b'0' then rest else x ∷ xs

abbrev pub or_zero : Text → Text
or_zero [] = b'0' ∷ []
or_zero (x ∷ xs) = x ∷ xs

unfoldable pub number_of : Text → Text
number_of p = or_zero (trim_zeros p)

-- A third number where there are two.
abbrev pub pad : List Text → List Text
pad (major ∷ minor ∷ []) = major ∷ minor ∷ (b'0' ∷ []) ∷ []
pad numbers = numbers

abbrev pub are_numbers : ℕ → List Text → Bool
are_numbers least parts =
    leb least (length parts) && leb (length parts) 3 && not (any (λ p. not (is_number p)) parts)

unfoldable pub normalize_version : Text → Option Text
normalize_version text =
    let (core, tail) = core_and_tail text in
    let parts = split b'.' core in
    if are_numbers 2 parts then some (join b'.' (pad (map number_of parts)) ++ tail) else none

-- The closure `strip`: the tag after a prefix.
unfoldable pub strip : Text → Text × Bool → Option Text
strip tag (prefix, any_case) =
    let head = take (length prefix) tag in
    let same = if any_case then eq_ignore_ascii_case head prefix else text_eq head prefix in
    if leb (length prefix) (length tag) && not (is_continuation (drop (length prefix) tag)) && same
    then some (drop (length prefix) tag)
    else none

abbrev after_separators : List ℕ → Option Text → List Text
after_separators separators none = []
after_separators [] (some rest) = []
after_separators (c ∷ separators) (some rest) =
    let later = after_separators separators (some rest) in
    elim (strip_prefix rest (c ∷ [])) [ none ↦ later | some r ↦ r ∷ later ]

-- `after_prefixes`
unfoldable pub after_prefixes : Text → List (Text × Bool) → List Text
unfolding strip
after_prefixes tag [] = []
after_prefixes tag (p ∷ prefixes) =
    after_separators (b'/' ∷ b'-' ∷ b'_' ∷ b'@' ∷ []) (strip tag p) ++ after_prefixes tag prefixes

abbrev subpath_prefixes : Option Text → List (Text × Bool)
subpath_prefixes none = []
subpath_prefixes (some sub) =
    (sub, false) ∷ (if text_eq (file_name sub) sub then [] else (file_name sub, false) ∷ [])

abbrev repository_prefix : Option (Text × Text × Text) → List (Text × Bool)
repository_prefix none = []
repository_prefix (some (host, owner, repo)) = (repo, true) ∷ []

abbrev without_v : Text → Text
without_v text = elim (strip_prefix text (codes "v")) [ none ↦ text | some rest ↦ rest ]

module _ {V : Type 0} (semver : Text → Option V) where
  abbrev if_semver : Option Text → Option Text
  if_semver none = none
  if_semver (some version) = elim (semver version) [
    | none ↦ none
    | some _ ↦ if is_empty version then none else some version
  ]

  -- The first text that names a version.
  unfoldable pub first_version : List Text → Option Text
  first_version [] = none
  first_version (rest ∷ more) = elim (if_semver (normalize_version (without_v rest))) [
    | some version ↦ some version
    | none ↦ first_version more
  ]

  unfoldable pub tag_version : Text → Text → Option Text
  unfolding first_version after_prefixes
  tag_version tag project = first_version (
      after_prefixes tag
        (subpath_prefixes (repository_subpath project) ++ repository_prefix (repository project))
      ++ (tag ∷ []))
