-- ===== src/Policy/Tests.antt =====
-- Runs of src/install_policy.rs at concrete inputs.
use packslip.Base.{◌≡◌, ◌↔◌, refl, true, List, [], ◌∷◌, ◌++◌, none, some, ok, All}
use packslip.Base.Text.{
  eq_ignore_ascii_case, strip_prefix, drop, Text, codes, split, split_once, text_eq,
}
use packslip.Forge.Names.{same_repository, parse, same_project}
use packslip.Policy.Record.{
  Record, release, Scheme, sigstore_key, vendor, signer_continues, changes,
}
use packslip.Policy.Continuity.{role_of, prior_project_matches, continuity, is_approved}
use packslip.Policy.Constraints.{
  Constraints, IsSatisfied, check_from, check_from_iff, admin_constraints, admin_constraints-All,
}
use packslip.Policy.Prior.{IsPrior}
use packslip.Policy.Signer.{IsSameSigner, signer_continues_iff}
use packslip.Policy.Accepted.{IsSuccessor, id_of, continuity_iff}

abbrev tool : Text
tool = codes "example.com/tool"

abbrev record_of : Scheme → Text → Record
record_of scheme signer = record {
  project = tool;
  role = release;
  scheme = scheme;
  signer = signer;
  issuer = none;
  repository = none;
  pin_workflow = true;
  attested_by = vendor;
  key = some signer;
  provenance = record { scope = codes "linux, {tool"; links = 2 } ∷ [];
}

abbrev first : Record
first = record_of sigstore_key (codes "key 1")

abbrev second : Record
second = record_of sigstore_key (codes "key 2")

abbrev id : Text → Text → Text → Record → Record → Unit {0} → Text
id project role bundle previous next requirements = previous.signer ++ next.signer

abbrev accepted : List Text
accepted = codes "key 1key 2" ∷ []

continuity_iff_example :
    (continuity id tool (codes "release") [] (some first) second tt accepted ≡ ok tt) ↔ (
      (role_of (codes "release") ≡ some release)
      × (tool ≡ tool)
      × IsPrior tool (some first) second
      × IsSuccessor release
          (id_of id tool (codes "release") [] (some first) second tt)
          accepted
          (some first)
          second)
continuity_iff_example = continuity_iff id tool (codes "release") [] (some first) second tt accepted

approved_change : continuity id tool (codes "release") [] (some first) second tt accepted ≡ ok tt
unfolding continuity role_of text_eq codes prior_project_matches same_project parse split split_once
    changes is_approved
approved_change = refl

signer_continues_iff_example :
    (signer_continues first second ≡ true)
    ↔ ((sigstore_key ≡ sigstore_key) × (first.issuer ≡ second.issuer) × IsSameSigner first second)
signer_continues_iff_example = signer_continues_iff first second

abbrev digest : Text → Text
digest bytes = bytes

abbrev constraint : Constraints
constraint = record {
  pins = [];
  pubkey = none;
  issuer = none;
  identity = some (codes "key 1");
  identity_prefix = some (codes "key");
}

check_from_iff_example :
    (check_from digest none first 0 (constraint ∷ []) ≡ ok tt)
    ↔ All (IsSatisfied digest none first) (constraint ∷ [])
check_from_iff_example = check_from_iff digest none first 0 (constraint ∷ [])

abbrev on_forge : Text
on_forge = codes "github.com/jdx/mise"

abbrev two_files : List (List (Text × Constraints))
two_files = ((codes "github.com/JDX/Mise", constraint) ∷ []) ∷ ((tool, constraint) ∷ []) ∷ []

two_files-read : admin_constraints on_forge two_files ≡ some (constraint ∷ [])
unfolding admin_constraints same_project parse split codes text_eq same_repository
    eq_ignore_ascii_case strip_prefix drop split_once
two_files-read = refl

admin_constraints-All_example :
    All
      (λ file. All (λ (name, c). same_project name on_forge ≡ true → c ≡ constraint) file)
      two_files
admin_constraints-All_example =
    admin_constraints-All (λ c. c ≡ constraint) on_forge two_files (constraint ∷ []) two_files-read
      (refl, tt)
