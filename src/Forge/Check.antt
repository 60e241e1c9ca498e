-- ===== src/Forge/Check.antt =====
-- `Expected`, `policy`, `check`, `check_source` and `Check::continues_signer` of src/forge.rs.
pub mod Accepted
pub mod Continues
pub mod Same
pub mod Signer
use packslip.Base.{
  ℕ, Bool, true, false, not, ◌&&◌, ◌||◌, List, [], ◌∷◌, ◌++◌, map, Option, none, some, any, find,
  if◌then◌else◌, Result, ok, err, ◌>>=◌, ◌>>◌, refuse_if,
}
use packslip.Base.Text.{Text, text_eq, text_eq?}
use packslip.Forge.Names.{
  ForgeName, Repository, parse, issuer, uri, signer_prefix, same_repository, same_project,
}
use packslip.Forge.Urls.{identity_has_prefix, same_url, repository_of}
use packslip.Forge.Pins.{ForgePin, SourceRepository, external_signer, same_path}

pub data PinSource : Type 0 where
  local lockfile : PinSource

pub data Evidence : Type 0 where
  pin resolved local_pin lockfile_pin : Evidence

abbrev pub evidence_of : PinSource → Evidence
evidence_of local = local_pin
evidence_of lockfile = lockfile_pin

-- Without `accept_transfer`, which is ignored.
pub record Expected : Type 0 where
  pub project : Text
  pub pin : Option ForgePin
  pub pins : List (PinSource × ForgePin)
  pub resolved_repository_id : Option Text

-- Without `Transferred`, which nothing returns any more.
pub data Continuity : Type 0 where
  same : Continuity
  renamed : Text → Text → Continuity

-- Without `Transferred`, which nothing returns any more.
pub data IdentityError : Type 0 where
  not_forge : Text → IdentityError
  project_mismatch : Text → Text → IdentityError
  wrong_issuer : Text → Text → Option Text → IdentityError
  signer_outside_repository : Text → Text → IdentityError
  source_mismatch : Text → Text → IdentityError
  different_repository : Text → Text → Text → Evidence → IdentityError

pub record Check : Type 0 where
  pub continuity : Continuity
  pub source : Option SourceRepository
  pub pin : Option ForgePin
  pub identity : Text
  pub by_id : Bool
  pub pin_workflow : Bool
  pub requested : Text
  pub previous_projects : List Text

-- `Expected::new`, and what the caller adds to it.
abbrev pub expected_for : Text → Expected
expected_for project = record {
  project = project;
  pin = none;
  pins = [];
  resolved_repository_id = none;
}

abbrev pub pinned : Option ForgePin → Expected → Expected
pinned p expected = record expected { pin = p }

abbrev pub pinned_by : List (PinSource × ForgePin) → Expected → Expected
pinned_by ps expected = record expected { pins = ps }

abbrev pub resolved_as : Option Text → Expected → Expected
resolved_as id expected = record expected { resolved_repository_id = id }

abbrev pub pin_source : Evidence → Option PinSource
pin_source local_pin = some local
pin_source lockfile_pin = some lockfile
pin_source Evidence.pin = none
pin_source Evidence.resolved = none

abbrev first_pin : Option ForgePin → List (ForgePin × Evidence)
first_pin none = []
first_pin (some p) = (p, Evidence.pin) ∷ []

unfoldable pub all_pins : Expected → List (ForgePin × Evidence)
all_pins expected =
    first_pin expected.pin ++ map (λ (source, p). (p, evidence_of source)) expected.pins

abbrev resolved_ids : Option Text → List (Text × Evidence)
resolved_ids none = []
resolved_ids (some id) = (id, Evidence.resolved) ∷ []

-- The IDs to compare the certificate's with.
abbrev pub known_ids : Option Text → List (ForgePin × Evidence) → List (Text × Evidence)
known_ids resolved_id [] = resolved_ids resolved_id
known_ids resolved_id (p ∷ ps) = map (λ (q, evidence). (q.repository_id, evidence)) (p ∷ ps)

abbrev pub is_given : {A : Type 0} → Option A → Bool
is_given none = false
is_given (some _) = true

abbrev pub has_pins : List (ForgePin × Evidence) → Bool
has_pins [] = false
has_pins (_ ∷ _) = true

-- `by_id`
abbrev pub compares_ids : Expected → Option Text → Bool
compares_ids expected actual =
    is_given actual && (has_pins (all_pins expected) || is_given expected.resolved_repository_id)

abbrev pub source_id : Option SourceRepository → Option Text
source_id none = none
source_id (some s) = s.id

abbrev pub by_name : Expected → Text → Bool → Result IdentityError Continuity
by_name expected signed true = ok same
by_name expected signed false = err (project_mismatch expected.project signed)

abbrev pub relation : Expected → Text → Bool → Continuity
relation expected signed true = same
relation expected signed false = renamed expected.project signed

abbrev pub by_ids :
    Expected → Text → Text → Option (Text × Evidence) → Result IdentityError Continuity
by_ids expected signed actual none =
    ok (relation expected signed (same_project signed expected.project))
by_ids expected signed actual (some (id, evidence)) =
    err (different_repository signed id actual evidence)

-- The `match actual_id`.
unfoldable pub classify : Expected → Text → Option Text → Result IdentityError Continuity
classify expected signed none = by_name expected signed (same_project signed expected.project)
classify expected signed (some actual) = elim (compares_ids expected (some actual)) [
  | true ↦ by_ids expected signed actual (
      find (λ (id, _). not (text_eq id actual))
        (known_ids expected.resolved_repository_id (all_pins expected)))
  | false ↦ by_name expected signed (same_project signed expected.project)
]

abbrev pub refuse_source : Option SourceRepository → Text → Result IdentityError (Unit {0})
refuse_source none repository = ok tt
refuse_source (some source) repository =
    refuse_if (not (same_url source.uri repository)) (source_mismatch source.uri repository)

abbrev pub pin_of : Text → Option Text → Option ForgePin
pin_of signed none = none
pin_of signed (some id) = some (record { project = signed; repository_id = id })

abbrev pub checked : Expected → Text → Text → Option SourceRepository → Continuity → Check
checked expected signed identity source continuity = record {
  continuity = continuity;
  source = source;
  pin = pin_of signed (source_id source);
  identity = identity;
  by_id = compares_ids expected (source_id source);
  pin_workflow = true;
  requested = expected.project;
  previous_projects = map (λ (p, _). p.project) (all_pins expected);
}

-- `check_inner`, once both names are parsed.
unfoldable pub check_names :
    Expected
    → Text
    → Text
    → Bool
    → Option Text
    → Option SourceRepository
    → ForgeName
    → ForgeName
    → Result IdentityError Check
unfolding classify
check_names expected signed identity require_signer given_issuer source want got = do
  refuse_if (not (text_eq got.host want.host) || not (text_eq? got.subpath want.subpath))
      (project_mismatch expected.project signed)
  refuse_if (not (text_eq? given_issuer (some (issuer want))))
      (wrong_issuer signed (issuer want) given_issuer)
  refuse_if (require_signer && not (identity_has_prefix identity (signer_prefix got)))
      (signer_outside_repository identity (uri got))
  refuse_source source (uri got)
  continuity ← classify expected signed (source_id source)
  ok (checked expected signed identity source continuity)

unfoldable pub check_inner :
    Expected
    → Text
    → Text
    → Bool
    → Option Text
    → Option SourceRepository
    → Result IdentityError Check
unfolding check_names
check_inner expected signed identity require_signer given_issuer source =
    elim (parse expected.project) [
      | none ↦ err (not_forge expected.project)
      | some want ↦ elim (parse signed) [
        | none ↦ err (project_mismatch expected.project signed)
        | some got ↦
            check_names expected signed identity require_signer given_issuer source want got
      ]
    ]

abbrev pub check :
    Expected → Text → Text → Option Text → Option SourceRepository → Result IdentityError Check
check expected signed identity given_issuer source =
    check_inner expected signed identity true given_issuer source

abbrev pub check_source :
    Expected → Text → Text → Option Text → Option SourceRepository → Result IdentityError Check
check_source expected signed identity given_issuer source =
    check_inner expected signed identity (not (is_given source)) given_issuer source

-- The issuer that `policy` asks for.
unfoldable pub policy : Text → Text → Option Text
policy requested signed = elim (parse requested) [
  | none ↦ none
  | some want ↦ elim (parse signed) [
    | none ↦ some (issuer want)
    | some got ↦
        if text_eq got.host want.host && text_eq? got.subpath want.subpath
        then some (issuer got)
        else some (issuer want)
  ]
]

abbrev names_repository : Repository → Text → Bool
names_repository before project = elim (parse project) [
  | none ↦ false
  | some name ↦ same_repository (name.host, name.repository) before
]

-- Whether `before` is a name that the repository's ID showed is the project's.
abbrev pub is_own : Check → ForgePin → Repository → Bool
is_own c p before = any (names_repository before) (p.project ∷ c.requested ∷ c.previous_projects)

abbrev pub may_continue : Repository → Bool → Option Repository → Bool
may_continue before own (some shared) = same_repository before shared && not own
may_continue before own none = own

abbrev pub same_forge : Bool → Option Repository → Option Repository → Bool
same_forge by_id (some before) (some now) =
    text_eq before.0 now.0 && (by_id || same_repository before now)
same_forge by_id _ _ = false

abbrev pub continues_pinned : Check → Text → Option ForgePin → Option Repository → Bool
continues_pinned c previous (some p) (some before) =
    if not (may_continue before (is_own c p before) (external_signer c.identity p))
    then false
    else same_path previous (some p) c.identity (some p)
continues_pinned c previous p _ = same_path previous p c.identity p

unfoldable pub continues_signer : Check → Text → Bool
continues_signer c previous =
    let pin = if c.by_id then c.pin else none in
    if not c.pin_workflow
    then same_forge c.by_id (repository_of previous) (repository_of c.identity)
    else continues_pinned c previous pin (repository_of previous)

-- Set from the verified document's declaration.
abbrev pub declaring_pin_workflow : Bool → Check → Check
declaring_pin_workflow pins c = record c { pin_workflow = pins }
