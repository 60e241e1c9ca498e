-- ===== src/Document/Invalid.antt =====
-- `InvalidDocument` of src/model.rs, and the checks that every document has: extensions, versions,
-- timestamps, digests and the envelope. The owner of an extension is a constructor with the name that
-- the message shows; semver and jiff parse versions and timestamps.
use packslip.Base.{
  Bool, true, false, not, List, [], ◌∷◌, ◌++◌, Option, none, some, map, find, Result, ok, err, ◌>>◌,
  refuse_if,
}
use packslip.Base.Text.{Text, codes, text_eq, is_empty}
use packslip.Document.{Extensions, Digest, Subject, Envelope}
use packslip.Document.Names.{is_in, lowercase_hex}

pub data ResourceSource : Type 0 where
  archive asset repo exec : ResourceSource

pub data Owner : Type 0 where
  the_release the_release_list : Owner
  artifact resource release : Text → Owner

pub data InvalidDocument : Type 0 where
  kind project not_semver : Text → InvalidDocument
  version no_artifacts resource_kind expiry : InvalidDocument
  predicate_type timestamp : Text → Text → InvalidDocument
  duplicate_artifact duplicate_subject orphan_subject orphan_artifact : Text → InvalidDocument
  sha256 sha512 bin_path artifact_format resource_source resource_url resource_env :
      Text → InvalidDocument
  bin_name bin_name_exe required_lib duplicate_required_lib : Text → Text → InvalidDocument
  required_bin_name duplicate_required_bin required_bin_is_own : Text → Text → InvalidDocument
  required_bin_min bare_bin token : Text → Text → Text → InvalidDocument
  ambiguous_artifacts resource_artifact orphan_asset env_name exec_not_a_bin :
      Text → Text → InvalidDocument
  resource_archive_in_bare_artifact : Text → Text → Text → InvalidDocument
  resource_path : Text → ResourceSource → InvalidDocument
  repo_needs_commit completion_shell completion_shells cli_spec skill_name : Text → InvalidDocument
  app_source sbom duplicate_release unknown_latest orphan_release : Text → InvalidDocument
  shell cli_spec_bin resource_bin resource_needs_bin : Text → Text → InvalidDocument
  extension_key : Owner → InvalidDocument

abbrev pub Checked : Type 0
Checked = Result InvalidDocument (Unit {0})

-- `for x in xs { check(x)? }`
abbrev pub each : {A : Type 0} → (A → Checked) → List A → Checked
each check [] = ok tt
each check (x ∷ xs) = do check x; each check xs

-- The same, where the check also reads the elements before: a set that the loop fills holds the
-- names of just those.
abbrev pub each_after : {A : Type 0} → (List A → A → Checked) → List A → List A → Checked
each_after check before [] = ok tt
each_after check before (x ∷ xs) = do check before x; each_after check (before ++ (x ∷ [])) xs

abbrev pub is_some : {A : Type 0} → Option A → Bool
is_some none = false
is_some (some _) = true

abbrev pub is_none : {A : Type 0} → Option A → Bool
is_none none = true
is_none (some _) = false

abbrev pub if_some : {A : Type 0} → Option A → (A → Checked) → Checked
if_some none check = ok tt
if_some (some a) check = check a

abbrev pub or_empty : Option Text → Text
or_empty none = []
or_empty (some text) = text

unfoldable pub check_extensions : Owner → Extensions → Checked
check_extensions owner extensions = refuse_if (is_in [] extensions) (extension_key owner)

unfoldable pub parse_version : {V : Type 0} → (Text → Option V) → Text → Result InvalidDocument V
parse_version semver text =
    if_empty (is_empty text) (elim (semver text) [ none ↦ err (not_semver text) | some v ↦ ok v ])
  where
    if_empty : {V : Type 0} → Bool → Result InvalidDocument V → Result InvalidDocument V
    if_empty true r = err version
    if_empty false r = r

unfoldable pub check_timestamp :
    {T : Type 0} → (Text → Option T) → Text → Text → Result InvalidDocument T
check_timestamp parse field value = elim (parse value) [
  | none ↦ err (timestamp field value)
  | some t ↦ ok t
]

unfoldable pub check_digest : Text → Digest → Checked
check_digest name digest = do
  refuse_if (not (lowercase_hex digest.sha256 64)) (sha256 name)
  if_some digest.sha512 (λ hex. refuse_if (not (lowercase_hex hex 128)) (sha512 name))

abbrev pub subject_names : List Subject → List Text
subject_names = map (λ s. s.name)

unfoldable pub check_subject : List Subject → Subject → Checked
unfolding check_digest
check_subject before subject = do
  refuse_if (is_in subject.name (subject_names before)) (duplicate_subject subject.name)
  check_digest subject.name subject.digest

abbrev pub statement_type : Text
unfolding codes
statement_type = codes "https://in-toto.io/Statement/v1"

module _ {P : Type 0} where
  unfoldable pub check_envelope : Text → Envelope P → Checked
  unfolding check_subject
  check_envelope expected e = do
    refuse_if (not (text_eq e.kind statement_type)) (kind e.kind)
    refuse_if (not (text_eq e.predicate_type expected)) (predicate_type expected e.predicate_type)
    each_after check_subject [] e.subject

  unfoldable pub digest_of : Envelope P → Text → Option Text
  digest_of e name = elim (find (λ s. text_eq s.name name) e.subject) [
    | none ↦ none
    | some s ↦ some s.digest.sha256
  ]
