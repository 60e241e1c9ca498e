-- ===== src/Document/Tests.antt =====
-- Documents to run src/model.rs on.
use packslip.Base.{
  select, ◌≡◌, refl, List, [], ◌∷◌, ◌++◌, All, length, ℕ, Option, none, some, ok, err,
}
use packslip.Base.Text.{Text, codes}
use packslip.Policy.Record.{sigstore_oidc, vendor}
use packslip.Document.{
  Artifact, Subject, Resource, Statement, Digest, Identity, Predicate, Envelope,
}
use packslip.Document.Invalid.{ResourceSource}
use packslip.Document.Resources.Only.{IsOnly}
use packslip.Document.Resources.{source}
use packslip.Document.Resources.{identities_for}
use packslip.Document.Resources.Among.{select_among, is_preferred}
use packslip.Document.Resources.Specific.{select_among-preferred}
use packslip.Document.Validate.{validate}
use packslip.Document.Validate.Wellformed.{IsWellformed, validate-IsWellformed}
use packslip.Document.Validate.Places.{IsPlaced, validate-IsPlaced}
use packslip.Document.Select.Ranks.{holders}
use packslip.Document.Select.Distinct.{NamesSame, select_artifact-tied}
use packslip.Document.Select.{Host, Key, ambiguous, select_artifact, candidate}
use packslip.Document.Select.Choice.{IsChoice}
use packslip.Document.Select.Documented.{IsRanked, select_artifact_iff}

abbrev artifact : Text → Option Text → Option Text → Text → Artifact
artifact name os arch format = record {
  name = name;
  os = os;
  arch = arch;
  libc = none;
  variant = none;
  size = 1;
  url = none;
  format = some format;
  bin = [];
  requires = none;
  provenance = [];
  extensions = [];
}

abbrev linux : Host
linux = record { os = codes "linux"; arch = codes "x86_64"; libc = some (codes "gnu") }

abbrev formats : List Text
formats = codes "tar.xz" ∷ codes "tar.gz" ∷ []

abbrev portable : Artifact
portable = artifact (codes "any") none none (codes "tar.xz")

abbrev for_linux : Artifact
for_linux = artifact (codes "linux") (some (codes "linux")) none (codes "tar.gz")

abbrev for_linux_xz : Artifact
for_linux_xz = artifact (codes "linux_xz") (some (codes "linux")) none (codes "tar.xz")

abbrev for_x86_64_xz : Artifact
for_x86_64_xz = artifact (codes "x86_64_xz") none (some (codes "x86_64")) (codes "tar.xz")

abbrev release : List Artifact
release = portable ∷ for_linux ∷ for_linux_xz ∷ []

test_specific : select_artifact release linux none formats ≡ ok for_linux_xz
unfolding select_artifact packslip.Base.Text.text_eq codes
test_specific = refl

test_ambiguous :
    select_artifact (for_linux_xz ∷ for_x86_64_xz ∷ []) linux none formats
    ≡ err (ambiguous (codes "linux_xz") (codes "x86_64_xz"))
unfolding select_artifact packslip.Base.Text.text_eq codes
test_ambiguous = refl

select_artifact_iff_example : IsChoice (IsRanked linux none formats) release (ok for_linux_xz)
select_artifact_iff_example =
    (select_artifact_iff release linux none formats (ok for_linux_xz)).0 test_specific

abbrev hex64 : Text
hex64 = codes "0123456789abcdef0123456789abcdef0123456789abcdef0123456789abcdef"

abbrev subject : Text → Subject
subject name = record { name = name; digest = record { sha256 = hex64; sha512 = none } }

abbrev resource : Text → Option Text → Option Text → Resource
resource kind archive asset = record {
  kind = kind;
  artifact = none;
  os = none;
  arch = none;
  libc = none;
  shell = none;
  shells = [];
  name = none;
  bin = none;
  format = none;
  archive = archive;
  asset = asset;
  url = none;
  repo = none;
  exec = [];
  env = [];
  extensions = [];
}

abbrev statement : Statement
statement = record {
  kind = codes "https://in-toto.io/Statement/v1";
  subject =
      subject (codes "any")
      ∷ subject (codes "linux_xz")
      ∷ subject (codes "x86_64_xz")
      ∷ subject (codes "licenses")
      ∷ [];
  predicate_type = codes "https://packslip.dev/release/v1";
  predicate = record {
    project = codes "github.com/acme/tool";
    version = codes "1.2.0";
    published_at = codes "2026-09-01";
    source = none;
    artifacts = portable ∷ for_linux_xz ∷ for_x86_64_xz ∷ [];
    resources =
        resource (codes "man") (some (codes "share/tool.1")) none
        ∷ resource (codes "notice") none (some (codes "licenses"))
        ∷ [];
    identity = record {
      scheme = sigstore_oidc;
      key_id = codes "key";
      issuer = none;
      pin_workflow = none;
    };
    attested_by = vendor;
    evidence = [];
    notes_url = none;
    extensions = [];
  };
}

-- Stand-ins for the parsers that are not the program's own.
abbrev semver : Text → Option Text
semver version = some version

abbrev timestamp : Text → Option ℕ
timestamp text = some (length text)

test_valid : validate semver timestamp statement ≡ ok tt
unfolding validate packslip.Document.Invalid.check_envelope packslip.Base.Text.text_eq codes
    packslip.Document.Names.lowercase_hex packslip.Forge.Grammar.valid_project
    packslip.Base.Text.split packslip.Base.Text.last_byte packslip.Document.Invalid.parse_version
    packslip.Document.Invalid.check_timestamp packslip.Document.Invalid.check_extensions
    packslip.Document.Artifacts.check_artifact packslip.Document.Names.valid_token
    packslip.Document.Artifacts.check_requires source packslip.Document.Names.valid_relative_path
    packslip.Base.Text.starts_with packslip.Base.Text.drop packslip.Base.Text.eq_ignore_ascii_case
    packslip.Base.Text.lower packslip.Base.Text.strip_prefix packslip.Base.Text.take
    packslip.Base.Text.to_ascii_lowercase packslip.Document.Artifacts.bare_of
    packslip.Document.Artifacts.bin_names_from packslip.Document.Artifacts.check_bin
    packslip.Document.Artifacts.check_command packslip.Document.Artifacts.check_lib
    packslip.Document.Artifacts.check_token packslip.Document.Artifacts.is_same_build
    packslip.Document.Invalid.check_digest packslip.Document.Invalid.check_subject
    packslip.Document.Invalid.digest_of packslip.Document.Names.bare_file_name
    packslip.Document.Names.command_name packslip.Document.Names.is_bare_format
    packslip.Document.Names.valid_lib_name packslip.Document.Names.valid_min_version
    packslip.Document.Names.valid_required_bin_name packslip.Document.Names.valid_shell
    packslip.Document.Resources.label packslip.Document.Resources.resource_fits
    packslip.Document.Validate.check_completion packslip.Document.Validate.check_env
    packslip.Document.Validate.check_kind packslip.Document.Validate.check_orphan
    packslip.Document.Validate.check_owner packslip.Document.Validate.check_resource
    packslip.Document.Validate.check_resources packslip.Document.Validate.check_source
    packslip.Document.Validate.check_target packslip.Forge.Grammar.has_two_dots
    packslip.Forge.Grammar.valid_host packslip.Forge.Grammar.valid_label
    packslip.Forge.Grammar.valid_segment
test_valid = refl

validate-IsWellformed_example : IsWellformed semver timestamp statement
validate-IsWellformed_example = validate-IsWellformed semver timestamp statement test_valid

validate-IsPlaced_example :
    All
      (λ r. (from : ResourceSource) × IsOnly from r × IsPlaced statement from r)
      statement.predicate.resources
validate-IsPlaced_example = validate-IsPlaced semver timestamp statement test_valid

test_tied :
    select_artifact statement.predicate.artifacts linux none formats
    ≡ err (ambiguous (codes "linux_xz") (codes "x86_64_xz"))
unfolding select_artifact packslip.Base.Text.text_eq codes
test_tied = refl

select_artifact-tied_example :
    (k : Key) × (c : Artifact) × (t : Artifact) × (mid : List Artifact) × (holders
        (candidate linux none formats)
        k
        statement.predicate.artifacts
      ≡ c ∷ (mid ++ (t ∷ [])))
    × (codes "linux_xz" ≡ c.name)
    × (codes "x86_64_xz" ≡ t.name)
    × (¬ NamesSame c t)
select_artifact-tied_example =
    select_artifact-tied semver timestamp statement linux none formats (codes "linux_xz")
      (codes "x86_64_xz") test_valid test_tied

-- A man page of any artifact, and one of Linux artifacts that hides it there.
abbrev pages : List Resource
pages =
    resource (codes "man") (some (codes "tool.1")) none
    ∷ record (resource (codes "man") (some (codes "linux/tool.1")) none) {
      os = some (codes "linux");
    }
    ∷ resource (codes "man") (some (codes "other.1")) none
    ∷ []

abbrev linux_pages : List Resource
linux_pages =
    record (resource (codes "man") (some (codes "linux/tool.1")) none) { os = some (codes "linux") }
    ∷ resource (codes "man") (some (codes "other.1")) none
    ∷ []

test_pages : select_among pages for_linux (identities_for none) ≡ linux_pages
unfolding select_among identities_for packslip.Base.Text.text_eq codes
    packslip.Document.Names.file_name packslip.Base.Text.split
    packslip.Document.Resources.resource_fits packslip.Document.Names.is_bare_format
test_pages = refl

select_among-preferred_example :
    select_among pages for_linux (identities_for none)
    ≡ select (is_preferred pages for_linux (identities_for none)) pages
select_among-preferred_example = select_among-preferred pages for_linux (identities_for none)
