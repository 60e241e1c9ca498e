-- ===== src/Discovery/Tests.antt =====
-- Requests and lists to run src/discovery.rs and the lists of src/model.rs on.
use packslip.Base.{
  ℕ, ◌≡◌, ◌↔◌, ◌⊎◌, ◌≤◌, refl, inl, inr, Bool, true, false, not, List, [], ◌∷◌, ◌++◌, Option, none,
  some, length, All, ltb, ok, err,
}
use packslip.Base.Text.{Text, codes, text_eq, contains_byte}
use packslip.Policy.Record.{sigstore_oidc}
use packslip.Document.{
  Digest, Subject, Identity, ReleaseRef, ReleaseList, Envelope, ReleaseListStatement, ReleaseStatus,
  yanked,
}
use packslip.Document.Versions.{normalize_version, tag_version}
use packslip.Document.ReleaseLists.{validate_list}
use packslip.Document.ReleaseLists.Wellformed.{IsWellformedList, validate_list-IsWellformedList}
use packslip.Discovery.{Release, stale_list}
use packslip.Discovery.Requests.{numeric_request, matches_request}
use packslip.Discovery.Requests.Normal.{normalize_version-stable}
use packslip.Discovery.Requests.Matches.{Extends, matches_request_iff}
use packslip.Discovery.Freshness.{list_freshness, list_freshness_iff}
use packslip.Discovery.Candidates.{Candidates, candidates_with_latest, choose_with_latest}
use packslip.Discovery.Candidates.Withdrawn.{candidates-withdrawn}

abbrev release : Text → Text → Release
release version tag = record {
  version = version;
  tag = tag;
  bundles = codes "bundle" ∷ [];
  recommended = false;
}

abbrev entry : Text → Option ReleaseStatus → ReleaseRef
entry version status = record {
  version = version;
  tag = none;
  published_at = codes "2026-09-01";
  packslip = codes "bundle";
  status = status;
  status_reason = none;
  security = false;
  extensions = [];
  evidence = [];
}

abbrev the_list : ReleaseListStatement
the_list = record {
  kind = codes "https://in-toto.io/Statement/v1";
  subject =
      record {
        name = codes "bundle";
        digest = record {
          sha256 = codes "0123456789abcdef0123456789abcdef0123456789abcdef0123456789abcdef";
          sha512 = none;
        };
      }
      ∷ [];
  predicate_type = codes "https://packslip.dev/releases/v1";
  predicate = record {
    project = codes "github.com/acme/tool";
    generated_at = codes "1";
    expires_at = codes "22";
    sequence = 3;
    identity = record {
      scheme = sigstore_oidc;
      key_id = codes "key";
      issuer = none;
      pin_workflow = none;
    };
    latest = none;
    releases = entry (codes "1.2.0") none ∷ entry (codes "1.3.0") (some yanked) ∷ [];
    extensions = [];
  };
}

abbrev live : List Release
live = release (codes "1.3.0") (codes "v1.3.0") ∷ release (codes "1.2.0") (codes "v1.2.0") ∷ []

-- Stand-ins for semver and jiff.
abbrev semver : Text → Option Bool
semver version = some (not (contains_byte b'-' version))

abbrev in_range : Text → Text → Bool
in_range range version = true

abbrev above : Text → Text → Bool
above a b = false

abbrev timestamp : Text → Option ℕ
timestamp text = some (length text)

abbrev later : ℕ → ℕ → Bool
later a b = ltb b a

test_list : validate_list semver timestamp later the_list ≡ ok tt
unfolding validate_list packslip.Document.Invalid.check_envelope text_eq codes
    packslip.Document.Names.lowercase_hex packslip.Forge.Grammar.valid_project
    packslip.Base.Text.split packslip.Base.Text.last_byte packslip.Document.Invalid.check_timestamp
    packslip.Document.Invalid.check_extensions packslip.Document.Invalid.parse_version
    packslip.Document.Invalid.digest_of
test_list = refl

validate_list-IsWellformedList_example : IsWellformedList semver timestamp later the_list
validate_list-IsWellformedList_example =
    validate_list-IsWellformedList semver timestamp later the_list test_list

abbrev chosen : Candidates
chosen = record {
  releases =
      record {
        version = codes "1.2.0";
        tag = codes "v1.2.0";
        bundles = codes "bundle" ∷ [];
        recommended = false;
      }
      ∷ [];
  latest = true;
  skipped = [];
  recommendation = none;
}

test_chosen :
    candidates_with_latest semver in_range above live (some the_list) none none ≡ ok chosen
unfolding candidates_with_latest packslip.Discovery.Candidates.check_versions
    packslip.Discovery.Merge.merge_entries packslip.Discovery.Merge.names_entry
    packslip.Discovery.Candidates.ordered packslip.Discovery.Merge.apply_list
    packslip.Discovery.Merge.merge_live text_eq codes
test_chosen = refl

candidates-withdrawn_example : All (λ r. ¬ (r.version ≡ codes "1.3.0")) chosen.releases
unfolding text_eq codes
candidates-withdrawn_example =
    candidates-withdrawn semver in_range above semver timestamp later (codes "1.3.0") live the_list
      none none chosen test_list refl test_chosen

abbrev seen : Option ℕ
seen = some 3

list_freshness_iff_example : (list_freshness timestamp later (some the_list) seen 1 ≡ ok tt) ↔ (
    ((some the_list ≡ none) × (seen ≡ none))
    ⊎ ((l : ReleaseListStatement) × (expires : ℕ) × (some the_list ≡ some l)
        × (timestamp l.predicate.expires_at ≡ some expires)
        × (later expires 1 ≡ true)
        × ((n : ℕ) → seen ≡ some n → n ≤ l.predicate.sequence)))
list_freshness_iff_example = list_freshness_iff timestamp later (some the_list) seen 1

test_normal : normalize_version (codes "025.07-rc.1") ≡ some (codes "25.7.0-rc.1")
unfolding normalize_version packslip.Base.Text.split packslip.Document.Versions.core_and_tail codes
    packslip.Extract.Names.Split.join packslip.Document.Versions.number_of
test_normal = refl

normalize_version-stable_example :
    (normalize_version (codes "25.7.0-rc.1") ≡ some (codes "25.7.0-rc.1"))
    × (numeric_request (codes "25.7.0-rc.1") ≡ some (codes "25.7.0-rc.1"))
normalize_version-stable_example =
    normalize_version-stable (codes "025.07-rc.1") (codes "25.7.0-rc.1") test_normal

test_request : numeric_request (codes "v3.012") ≡ some (codes "3.12")
unfolding numeric_request packslip.Base.Text.split packslip.Document.Versions.core_and_tail
    packslip.Base.Text.strip_prefix codes packslip.Extract.Names.Split.join
    packslip.Document.Versions.number_of
test_request = refl

matches_request_iff_example :
    (matches_request semver in_range (release (codes "3.120.0") (codes "v3.120.0")) (codes "v3.012")
      ≡ true)
    ↔ ((codes "3.120.0" ≡ codes "3.12")
        ⊎ (((true ≡ true) ⊎ (contains_byte b'-' (codes "3.12") ≡ true))
            × Extends (codes "3.120.0") (codes "3.12")))
unfolding codes
matches_request_iff_example =
    matches_request_iff semver in_range (release (codes "3.120.0") (codes "v3.120.0"))
      (codes "v3.012") (codes "3.12") true test_request refl refl

test_tag :
    tag_version semver (codes "tool-suite-1.2.0") (codes "github.com/acme/tool-suite/tool")
    ≡ some (codes "1.2.0")
unfolding tag_version packslip.Forge.Names.repository_subpath packslip.Base.Text.split codes text_eq
    packslip.Base.Text.strip_prefix packslip.Base.Text.drop packslip.Base.Text.take
    normalize_version packslip.Document.Versions.core_and_tail packslip.Document.Names.file_name
    packslip.Base.Text.eq_ignore_ascii_case packslip.Extract.Names.Split.join
    packslip.Document.Versions.number_of
test_tag = refl
