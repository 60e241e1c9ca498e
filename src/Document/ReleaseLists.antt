-- ===== src/Document/ReleaseLists.antt =====
-- `ReleaseListStatement::validate` and `is_current` of src/model.rs. `later` is jiff's order of
-- instants.
pub mod Wellformed
use packslip.Base.{
  Bool, true, false, not, List, [], ◌∷◌, Option, none, some, map, Result, ok, err, ◌>>=◌, ◌>>◌,
  refuse_if,
}
use packslip.Base.Text.{Text, codes}
use packslip.Forge.Grammar.{valid_project}
use packslip.Document.{ReleaseRef, ReleaseList, Envelope, ReleaseListStatement}
use packslip.Document.Names.{is_in}
use packslip.Document.Invalid.{
  the_release_list, release, project, expiry, duplicate_release, unknown_latest, orphan_release,
  Checked, each_after, if_some, is_none, check_extensions, parse_version, check_timestamp,
  check_envelope, digest_of,
}

abbrev pub releases_predicate_type : Text
unfolding codes
releases_predicate_type = codes "https://packslip.dev/releases/v1"

abbrev pub versions : List ReleaseRef → List Text
versions = map (λ r. r.version)

module _ {V T : Type 0} (semver : Text → Option V) (timestamp : Text → Option T)
    (later : T → T → Bool) where
  -- The body of the loop over `p.releases`.
  unfoldable pub check_release : ReleaseListStatement → List ReleaseRef → ReleaseRef → Checked
  check_release list before r = do
    _ ← parse_version semver r.version
    refuse_if (is_in r.version (versions before)) (duplicate_release r.version)
    check_extensions (release r.version) r.extensions
    _ ← check_timestamp timestamp (codes "published_at") r.published_at
    refuse_if (is_none (digest_of list r.packslip)) (orphan_release r.version)

  unfoldable pub check_latest : List ReleaseRef → Text → Checked
  check_latest releases latest = do
    _ ← parse_version semver latest
    refuse_if (not (is_in latest (versions releases))) (unknown_latest latest)

  -- `ReleaseListStatement::validate`
  unfoldable pub validate_list : ReleaseListStatement → Checked
  unfolding check_release check_latest
  validate_list list = do
    check_envelope releases_predicate_type list
    refuse_if (not (valid_project list.predicate.project)) (project list.predicate.project)
    generated ← check_timestamp timestamp (codes "generated_at") list.predicate.generated_at
    expires ← check_timestamp timestamp (codes "expires_at") list.predicate.expires_at
    refuse_if (not (later expires generated)) expiry
    check_extensions the_release_list list.predicate.extensions
    each_after (check_release list) [] list.predicate.releases
    if_some list.predicate.latest (check_latest list.predicate.releases)

module _ {T : Type 0} (timestamp : Text → Option T) (later : T → T → Bool) where
  unfoldable pub is_current : ReleaseListStatement → T → Bool
  is_current list now = elim (timestamp list.predicate.expires_at) [
    | none ↦ false
    | some expires ↦ later expires now
  ]
