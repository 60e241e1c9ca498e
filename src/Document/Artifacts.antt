-- ===== src/Document/Artifacts.antt =====
-- The loops over the artifacts in `Statement::validate` of src/model.rs.
use packslip.Base.{
  Bool, true, false, not, ◌&&◌, ◌||◌, List, [], ◌∷◌, Option, none, some, map, any, find, err, ◌>>◌,
  refuse_if, if◌then◌else◌, ltb, ◌==◌,
}
use packslip.Base.Text.{Text, codes, text_eq, text_eq?, is_empty, contains_byte}
use packslip.Document.{Subject, Bin, RequiredBin, Artifact}
use packslip.Document.Names.{
  is_in, is_bare_format, bare_file_name, valid_token, command_name, valid_lib_name,
  valid_required_bin_name, valid_min_version,
}
use packslip.Document.Invalid.{
  Checked, each, each_after, if_some, is_none, check_extensions, artifact, duplicate_artifact,
  orphan_artifact, artifact_format, token, bin_path, bin_name, bin_name_exe, bare_bin,
  ambiguous_artifacts, required_lib, duplicate_required_lib, required_bin_name, required_bin_min,
  duplicate_required_bin, required_bin_is_own,
}

abbrev pub names : List Artifact → List Text
names = map (λ a. a.name)

unfoldable pub check_token : Text → Text × Option Text → Checked
check_token owner (field, value) =
    if_some value (λ text. refuse_if (not (valid_token text)) (token owner field text))

-- `bare`: the one file of an artifact that is no archive.
unfoldable pub bare_of : Artifact → Option Text
bare_of a = elim a.format [
  | none ↦ none
  | some f ↦ if is_bare_format f then some (bare_file_name a.name f) else none
]

unfoldable pub check_bin : Artifact → Bin → Checked
unfolding bare_of
check_bin a b = do
  refuse_if (is_empty b.path) (bin_path a.name)
  refuse_if (is_empty b.name) (bin_name a.name b.path)
  refuse_if (contains_byte b'/' b.name) (bin_name a.name b.name)
  refuse_if (not (text_eq (command_name b.name) b.name)) (bin_name_exe a.name b.name)
  if_some (bare_of a)
      (λ expected. refuse_if (not (text_eq b.path expected)) (bare_bin a.name expected b.path))

unfoldable pub is_same_build : Artifact → Artifact → Bool
is_same_build b a =
    text_eq? b.os a.os
    && text_eq? b.arch a.arch
    && text_eq? b.libc a.libc
    && text_eq? b.variant a.variant
    && text_eq? b.format a.format
    && not (is_none b.format)

abbrev pub fields : Artifact → List (Text × Option Text)
unfolding codes
fields a =
    (codes "os", a.os)
    ∷ (codes "arch", a.arch)
    ∷ (codes "libc", a.libc)
    ∷ (codes "variant", a.variant)
    ∷ (codes "format", a.format)
    ∷ []

-- The body of the loop over `p.artifacts`.
unfoldable pub check_artifact : List Subject → List Artifact → Artifact → Checked
unfolding check_token check_bin is_same_build
check_artifact subject before a = do
  refuse_if (is_in a.name (names before)) (duplicate_artifact a.name)
  check_extensions (artifact a.name) a.extensions
  refuse_if (not (any (λ s. text_eq s.name a.name) subject)) (orphan_artifact a.name)
  refuse_if (is_none a.format) (artifact_format a.name)
  each (check_token a.name) (fields a)
  each (check_bin a) a.bin
  if_some (find (λ b. is_same_build b a) before)
      (λ other. err (ambiguous_artifacts other.name a.name))

-- The order of `str`, byte by byte.
abbrev pub text_ltb : Text → Text → Bool
text_ltb [] [] = false
text_ltb [] (y ∷ ys) = true
text_ltb (x ∷ xs) [] = false
text_ltb (x ∷ xs) (y ∷ ys) = ltb x y || (x == y && text_ltb xs ys)

-- `BTreeSet::insert`, on the set as the list of its elements in their order.
abbrev pub insert_name : Text → List Text → List Text
insert_name name [] = name ∷ []
insert_name name (x ∷ xs) =
    let rest = insert_name name xs in
    if text_ltb name x then name ∷ x ∷ xs else if text_eq name x then x ∷ xs else x ∷ rest

abbrev pub insert_bins : List Bin → List Text → List Text
insert_bins [] bins = bins
insert_bins (b ∷ more) bins = insert_bins more (insert_name (command_name b.name) bins)

unfoldable pub bin_names_from : List Text → List Artifact → List Text
bin_names_from bins [] = bins
bin_names_from bins (a ∷ artifacts) = bin_names_from (insert_bins a.bin bins) artifacts

abbrev pub bin_names : List Artifact → List Text
bin_names = bin_names_from []

abbrev only : List Text → Option Text
only (one ∷ []) = some one
only _ = none

-- `Statement::sole_bin`, on the predicate's artifacts.
unfoldable pub sole_bin : List Artifact → Option Text
sole_bin artifacts = only (bin_names artifacts)

abbrev pub is_bin : List Text → Text → Bool
is_bin bins name = is_in (command_name name) bins

unfoldable pub check_lib : Text → List Text → Text → Checked
check_lib owner before lib = do
  refuse_if (not (valid_lib_name lib)) (required_lib owner lib)
  refuse_if (is_in lib before) (duplicate_required_lib owner lib)

unfoldable pub check_command : List Text → Text → List RequiredBin → RequiredBin → Checked
check_command bins owner before r = do
  refuse_if (not (valid_required_bin_name r.name)) (required_bin_name owner r.name)
  if_some r.min (λ min. refuse_if (not (valid_min_version min)) (required_bin_min owner r.name min))
  refuse_if (is_in r.name (map (λ b. b.name) before)) (duplicate_required_bin owner r.name)
  refuse_if (is_bin bins r.name) (required_bin_is_own owner r.name)

-- The body of the loop over what the artifacts require.
unfoldable pub check_requires : List Text → Artifact → Checked
unfolding check_lib check_command
check_requires bins a = if_some a.requires (λ requires. do
  if_some requires.libs (each_after (check_lib a.name) [])
  each_after (check_command bins a.name) [] requires.bin)
