-- ===== src/Policy/Record.antt =====
-- `Record` and `changes` of src/install_policy.rs, on `Policy::for_project` of src/sigstore.rs. A
-- reason is a constructor with the values that its message shows.
use packslip.Base.{
  Bool, true, false, not, ◌&&◌, ◌||◌, List, [], ◌∷◌, ◌++◌, Option, none, some, length, ltb,
  if◌then◌else◌,
}
use packslip.Base.Text.{Text, text_eq, text_eq?, is_empty, split, split_once}
use packslip.Forge.Names.{repository, gitlab}
use packslip.Forge.Pins.{ForgePin, continues, same_workflow}
use packslip.Policy.Provenance.{Provenance, retains_provenance}

pub data Scheme : Type 0 where
  sigstore_oidc sigstore_key : Scheme

pub data Attestor : Type 0 where
  vendor repackager : Attestor

pub data Role : Type 0 where
  release list : Role

pub record Record : Type 0 where
  pub project : Text
  pub role : Role
  pub scheme : Scheme
  pub signer : Text
  pub issuer : Option Text
  pub repository : Option ForgePin
  pub pin_workflow : Bool
  pub attested_by : Attestor
  pub key : Option Text
  pub provenance : List Provenance

pub data Reason : Type 0 where
  oidc_to_key workflow_unpinned vendor_to_repackager provenance_dropped : Reason
  key_changed : Text → Text → Reason
  key_lost : Text → Reason
  repository_changed : ForgePin → ForgePin → Reason
  pin_lost : ForgePin → Reason
  issuer_changed : Option Text → Option Text → Reason
  signer_changed : Text → Text → Reason

-- `Policy::for_project(project).is_some()`
abbrev on_gitlab : Option (Text × Text) → Bool
on_gitlab none = false
on_gitlab (some (host, path)) =
    not (is_empty path || ltb (length (split b'/' path)) 2) && text_eq host gitlab

unfoldable pub forge_project : Text → Bool
forge_project project = elim (repository project) [
  | some _ ↦ true
  | none ↦ on_gitlab (split_once b'/' project)
]

abbrev pub same_scheme : Scheme → Scheme → Bool
same_scheme sigstore_oidc sigstore_oidc = true
same_scheme sigstore_key sigstore_key = true
same_scheme _ _ = false

abbrev pub when : Bool → Reason → List Reason
when true reason = reason ∷ []
when false reason = []

abbrev pub is_key_replacement : Scheme → Scheme → Bool
is_key_replacement sigstore_oidc sigstore_key = true
is_key_replacement _ _ = false

abbrev pub both_key : Scheme → Scheme → Bool
both_key sigstore_key sigstore_key = true
both_key _ _ = false

abbrev pub compare_keys : Option Text → Option Text → List Reason
compare_keys (some before) (some now) = when (not (text_eq before now)) (key_changed before now)
compare_keys (some before) none = key_lost before ∷ []
compare_keys none _ = []

unfoldable pub key_reasons : Record → Record → List Reason
key_reasons previous next =
    if both_key previous.scheme next.scheme then compare_keys previous.key next.key else []

-- The match on the two repositories.
abbrev pub signer_matches : Record → Record → Option ForgePin → Option ForgePin → Bool
signer_matches previous next (some before) (some now) =
    if not (forge_project next.project)
    then continues now before && same_workflow previous.signer none next.signer none
    else continues now before
      && (not next.pin_workflow
          || same_workflow previous.signer (some before) next.signer (some now))
signer_matches previous next (some before) none = false
signer_matches previous next none now = elim previous.scheme [
  | sigstore_oidc ↦ same_workflow previous.signer none next.signer now
  | sigstore_key ↦ text_eq previous.signer next.signer
]

unfoldable pub signer_continues : Record → Record → Bool
unfolding forge_project
signer_continues previous next =
    same_scheme previous.scheme next.scheme
    && text_eq? previous.issuer next.issuer
    && signer_matches previous next previous.repository next.repository

abbrev repository_reasons : Option ForgePin → Option ForgePin → List Reason
repository_reasons (some before) (some now) =
    when (not (continues now before)) (repository_changed before now)
repository_reasons (some before) none = pin_lost before ∷ []
repository_reasons none _ = []

unfoldable pub signer_reasons : Record → Record → List Reason
signer_reasons previous next =
    repository_reasons previous.repository next.repository
    ++ (when (not (text_eq? previous.issuer next.issuer))
          (issuer_changed previous.issuer next.issuer)
        ++ (signer_changed previous.signer next.signer ∷ []))

abbrev pub is_demotion : Attestor → Attestor → Bool
is_demotion vendor repackager = true
is_demotion _ _ = false

unfoldable pub changes : Record → Record → List Reason
unfolding key_reasons signer_continues signer_reasons
changes previous next =
    when (is_key_replacement previous.scheme next.scheme) oidc_to_key
    ++ (key_reasons previous next
        ++ ((if not (signer_continues previous next) then signer_reasons previous next else [])
            ++ (when (previous.pin_workflow && not next.pin_workflow) workflow_unpinned
                ++ (when (is_demotion previous.attested_by next.attested_by) vendor_to_repackager
                    ++ when (not (retains_provenance previous.provenance next.provenance))
                        provenance_dropped))))
