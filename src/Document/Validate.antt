-- ===== src/Document/Validate.antt =====
-- `Statement::validate` of src/model.rs: the loop over the resources, and the whole.
pub mod Accepted
pub mod Places
pub mod Wellformed
use packslip.Base.{
  Bool, true, false, not, ◌&&◌, ◌||◌, List, [], ◌∷◌, ◌++◌, Option, none, some, map, any, find,
  length, ltb, Result, ok, err, ◌>>=◌, ◌>>◌, ◌==◌, refuse_if, if◌then◌else◌,
}
use packslip.Base.Text.{Text, codes, text_eq, is_empty, contains_byte, starts_with}
use packslip.Forge.Grammar.{valid_project}
use packslip.Document.{Subject, Source, Artifact, Resource, Predicate, Envelope, Statement}
use packslip.Document.Names.{is_in, valid_token, valid_shell, valid_relative_path}
use packslip.Document.Invalid.{
  ResourceSource, archive, asset, repo, exec, the_release, resource, InvalidDocument, project,
  no_artifacts, resource_kind, resource_source, resource_url, resource_env, resource_artifact,
  resource_archive_in_bare_artifact, resource_path, orphan_asset, env_name, repo_needs_commit,
  exec_not_a_bin, resource_bin, resource_needs_bin, completion_shell, shell, completion_shells,
  cli_spec, cli_spec_bin, skill_name, app_source, sbom, orphan_subject, Checked, each, each_after,
  is_some, is_none, if_some, or_empty, check_extensions, parse_version, check_timestamp,
  check_envelope, digest_of,
}
use packslip.Document.Artifacts.{
  names, check_token, check_artifact, check_requires, bin_names, is_bin,
}
use packslip.Document.Resources.{source, label, join, is_bare, resource_fits}

abbrev format_of : Option Artifact → Option Text
format_of none = none
format_of (some a) = a.format

abbrev refuse_bare : Text → Text → Option Text → Checked
refuse_bare label name none = ok tt
refuse_bare label name (some format) =
    refuse_if (is_bare (some format)) (resource_archive_in_bare_artifact label name format)

-- The checks of the artifact that a resource names.
unfoldable pub check_target : List Artifact → Resource → Checked
check_target artifacts r = if_some r.artifact (λ name. do
  if is_some r.archive
      then refuse_bare (label r) name (format_of (find (λ a. text_eq a.name name) artifacts))
      else ok tt
  refuse_if (not (any (λ a. resource_fits r a) artifacts)) (resource_artifact (label r) name))

abbrev pub has_commit : Option Source → Bool
has_commit none = false
has_commit (some s) = is_some s.commit

abbrev pub program : List Text → Text
program [] = []
program (p ∷ _) = p

-- `match source`, with the assets that it adds.
unfoldable pub check_source :
    Statement → List Text → Resource → ResourceSource → Result InvalidDocument (List Text)
check_source s bins r archive = do
  refuse_if (not (valid_relative_path (or_empty r.archive))) (resource_path (label r) archive)
  ok []
check_source s bins r asset = do
  refuse_if (is_none (digest_of s (or_empty r.asset))) (orphan_asset (label r) (or_empty r.asset))
  ok (or_empty r.asset ∷ [])
check_source s bins r repo = do
  refuse_if (not (valid_relative_path (or_empty r.repo))) (resource_path (label r) repo)
  refuse_if (not (has_commit s.predicate.source)) (repo_needs_commit (label r))
  ok []
check_source s bins r exec = do
  refuse_if (not (is_bin bins (program r.exec))) (exec_not_a_bin (label r) (program r.exec))
  ok []

abbrev is_exec : ResourceSource → Bool
is_exec exec = true
is_exec _ = false

abbrev is_asset : ResourceSource → Bool
is_asset asset = true
is_asset _ = false

abbrev is_archive : ResourceSource → Bool
is_archive archive = true
is_archive _ = false

abbrev is_bad_key : Text → Bool
is_bad_key k = is_empty k || any (λ c. c == b'=' || c == 0) k

unfoldable pub check_env : Resource → ResourceSource → Checked
check_env r source = do
  refuse_if (is_some_entry r.env && not (is_exec source)) (resource_env (label r))
  if_some (find is_bad_key (map (λ (k, v). k) r.env)) (λ bad. err (env_name (label r) bad))
  refuse_if (is_some r.url && not (is_asset source)) (resource_url (label r))
  where
    is_some_entry : List (Text × Text) → Bool
    is_some_entry [] = false
    is_some_entry (_ ∷ _) = true

abbrev is_kind : Resource → Text → Bool
is_kind r k = text_eq r.kind k

-- The executable that a completion or a man page is for.
unfoldable pub check_owner : List Text → Resource → Checked
check_owner bins r =
    if is_kind r (codes "completion") || is_kind r (codes "man")
    then elim r.bin [
      | some bin ↦ refuse_if (not (is_bin bins bin)) (resource_bin (label r) bin)
      | none ↦
          refuse_if (ltb 1 (length bins)) (resource_needs_bin (label r) (join (codes ", ") bins))
    ]
    else ok tt

-- `text.contains(piece)`
abbrev contains_text : Text → Text → Bool
contains_text [] piece = starts_with [] piece
contains_text (c ∷ cs) piece = starts_with (c ∷ cs) piece || contains_text cs piece

abbrev with_some : Option Text → List Text → List Text
with_some none texts = texts
with_some (some text) texts = text ∷ texts

abbrev is_nil : List Text → Bool
is_nil [] = true
is_nil (_ ∷ _) = false

unfoldable pub check_completion : Resource → ResourceSource → Checked
check_completion r source = do
  refuse_if (if is_nil r.shells then is_none r.shell else is_some r.shell)
      (completion_shell (label r))
  if_some (find (λ s. not (valid_shell s)) (with_some r.shell r.shells))
      (λ bad. err (shell (label r) bad))
  refuse_if
      ((is_exec source && is_some r.shell)
        || (not (is_nil r.shells)
            && (not (is_exec source)
                || not (
                    any (λ s. contains_text s (codes "{shell}"))
                      (r.exec ++ map (λ (k, v). v) r.env)))))
      (completion_shells (label r))

abbrev is_skill_name : Option Text → Bool
is_skill_name none = false
is_skill_name (some n) = not (is_empty n) && not (contains_byte b'/' n)

-- The last `match` of the loop.
unfoldable pub check_kind : List Text → Resource → ResourceSource → Checked
unfolding check_completion
check_kind bins r source =
    if is_kind r (codes "completion")
    then check_completion r source
    else if is_kind r (codes "cli-spec")
    then (do
      refuse_if (is_none r.format || is_none r.bin) (cli_spec (label r))
      refuse_if (not (is_bin bins (or_empty r.bin))) (cli_spec_bin (label r) (or_empty r.bin)))
    else if is_kind r (codes "skill")
    then refuse_if (not (is_skill_name r.name)) (skill_name (label r))
    else if is_kind r (codes "app")
    then refuse_if (not (is_archive source)) (app_source (label r))
    else if is_kind r (codes "sbom")
    then refuse_if (is_none r.format || is_exec source) (sbom (label r))
    else ok tt

abbrev pub scopes : Resource → List (Text × Option Text)
scopes r = (codes "os", r.os) ∷ (codes "arch", r.arch) ∷ (codes "libc", r.libc) ∷ []

abbrev pub the_source : Resource → Result InvalidDocument ResourceSource
the_source r = elim (source r) [ none ↦ err (resource_source (label r)) | some s ↦ ok s ]

-- The body of the loop over `p.resources`, with the assets that it adds.
unfoldable pub check_resource :
    Statement → List Text → Resource → Result InvalidDocument (List Text)
unfolding check_target check_source check_env check_owner check_kind
check_resource s bins r = do
  refuse_if (is_empty r.kind) resource_kind
  check_extensions (resource (label r)) r.extensions
  check_target s.predicate.artifacts r
  source ← the_source r
  each (check_token (label r)) (scopes r)
  added ← check_source s bins r source
  check_env r source
  check_owner bins r
  check_kind bins r source
  ok added

unfoldable pub check_resources :
    Statement → List Text → List Text → List Resource → Result InvalidDocument (List Text)
unfolding check_resource
check_resources s bins assets [] = ok assets
check_resources s bins assets (r ∷ resources) = do
  added ← check_resource s bins r
  check_resources s bins (added ++ assets) resources

unfoldable pub check_orphan : List Text → List Text → Subject → Checked
check_orphan seen assets subject =
    refuse_if (not (is_in subject.name seen) && not (is_in subject.name assets))
      (orphan_subject subject.name)

abbrev pub predicate_type : Text
unfolding codes
predicate_type = codes "https://packslip.dev/release/v1"

abbrev pub is_no_artifact : List Artifact → Bool
is_no_artifact [] = true
is_no_artifact (_ ∷ _) = false

module _ {V T : Type 0} (semver : Text → Option V) (timestamp : Text → Option T) where
  -- `Statement::validate`
  unfoldable pub validate : Statement → Checked
  unfolding check_resources check_orphan
  validate s = do
    check_envelope predicate_type s
    refuse_if (not (valid_project s.predicate.project)) (project s.predicate.project)
    _ ← parse_version semver s.predicate.version
    _ ← check_timestamp timestamp (codes "published_at") s.predicate.published_at
    refuse_if (is_no_artifact s.predicate.artifacts) no_artifacts
    check_extensions the_release s.predicate.extensions
    each_after (check_artifact s.subject) [] s.predicate.artifacts
    each (check_requires (bin_names s.predicate.artifacts)) s.predicate.artifacts
    assets ← check_resources s (bin_names s.predicate.artifacts) [] s.predicate.resources
    each (check_orphan (names s.predicate.artifacts) assets) s.subject
