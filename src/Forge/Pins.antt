-- ===== src/Forge/Pins.antt =====
-- Pins in src/forge.rs: `ForgePin`, `source_pin`, `same_workflow` and what it is made of.
use packslip.Base.{Bool, true, false, not, ◌&&◌, Option, none, some, if◌then◌else◌}
use packslip.Base.Text.{Text, codes, text_eq, is_empty, strip_prefix}
use packslip.Forge.Names.{ForgeName, Repository, parse, uri, same_repository}
use packslip.Forge.Urls.{same_url, without_ref, repository_of, workflow_path}

-- Without the owner's ID, which nothing compares.
pub record ForgePin : Type 0 where
  pub project : Text
  pub repository_id : Text

pub record SourceRepository : Type 0 where
  pub uri : Text
  pub id : Option Text

abbrev continues_as : Option ForgeName → Option ForgeName → Text → Text → Bool
continues_as (some before) (some now) old_id id = text_eq before.host now.host && text_eq old_id id
continues_as (some before) none old_id id = false
continues_as none _ old_id id = false

-- `pin.continues(previous)`
unfoldable pub continues : ForgePin → ForgePin → Bool
unfolding parse
continues pin previous =
    continues_as (parse previous.project) (parse pin.project) previous.repository_id
      pin.repository_id

abbrev is_some_text : Option Text → Bool
is_some_text none = false
is_some_text (some _) = true

unfoldable pub source_pin : SourceRepository → Option ForgePin
source_pin source = elim source.id [
  | none ↦ none
  | some id ↦ if is_empty id then none else (elim (strip_prefix source.uri (codes "https://")) [
    | none ↦ none
    | some name ↦ elim (parse name) [
      | none ↦ none
      | some parsed ↦
          if not (is_some_text parsed.subpath) && text_eq (uri parsed) source.uri
          then some (record { project = name; repository_id = id })
          else none
    ]
  ])
]

unfoldable pub external_signer : Text → ForgePin → Option Repository
unfolding repository_of parse same_repository
external_signer identity pin = elim (repository_of identity) [
  | none ↦ none
  | some signer ↦ elim (parse pin.project) [
    | none ↦ none
    | some project ↦
        if not (same_repository signer (project.host, project.repository))
        then some signer
        else none
  ]
]

abbrev pair_eq : Text × Text → Text × Text → Bool
pair_eq (a, b) (c, d) = text_eq a c && text_eq b d

abbrev pub same_place : Text → Text → Option (Text × Text) → Option (Text × Text) → Bool
same_place previous current (some before) (some now) = pair_eq before now
same_place previous current (some before) none =
    same_url (without_ref previous) (without_ref current)
same_place previous current none _ = same_url (without_ref previous) (without_ref current)

unfoldable pub same_path : Text → Option ForgePin → Text → Option ForgePin → Bool
unfolding continues same_url without_ref workflow_path
same_path previous (some before) current (some now) =
    continues now before
    && same_place previous current (workflow_path previous) (workflow_path current)
same_path previous (some before) current none =
    same_url (without_ref previous) (without_ref current)
same_path previous none current _ = same_url (without_ref previous) (without_ref current)

abbrev pub same_shared : Option Repository → Option Repository → Bool
same_shared none none = true
same_shared (some before) (some now) = same_repository before now
same_shared _ _ = false

unfoldable pub same_workflow : Text → Option ForgePin → Text → Option ForgePin → Bool
unfolding same_path external_signer
same_workflow previous (some before) current (some now) =
    if not (same_shared (external_signer previous before) (external_signer current now))
    then false
    else same_path previous (some before) current (some now)
same_workflow previous (some before) current none = same_path previous (some before) current none
same_workflow previous none current now = same_path previous none current now
