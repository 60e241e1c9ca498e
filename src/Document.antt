-- ===== src/Document.antt =====
-- The documents of src/model.rs: `Envelope`, the release's `Predicate`, the `ReleaseList`, and what
-- they hold. A map of extensions is the list of its keys, since no value of it is read.
pub mod Artifacts
pub mod Checks
pub mod Invalid
pub mod Names
pub mod ReleaseLists
pub mod Resources
pub mod Select
pub mod Tests
pub mod Validate
pub mod Versions
use packslip.Base.{ℕ, Bool, List, [], ◌∷◌, Option, none, some}
use packslip.Base.Text.{Text}
use packslip.Policy.Record.{Scheme, Attestor}

abbrev pub Extensions : Type 0
Extensions = List Text

pub record Digest : Type 0 where
  pub sha256 : Text
  pub sha512 : Option Text

pub record Subject : Type 0 where
  pub name : Text
  pub digest : Digest

pub record Identity : Type 0 where
  pub scheme : Scheme
  pub key_id : Text
  pub issuer : Option Text
  pub pin_workflow : Option Bool

pub record Evidence : Type 0 where
  pub kind : Text
  pub detail : Option Text

pub record Source : Type 0 where
  pub repo : Text
  pub commit : Option Text
  pub tag : Option Text

pub record Bin : Type 0 where
  pub path : Text
  pub name : Text

pub record RequiredBin : Type 0 where
  pub name : Text
  pub min : Option Text

pub record Requires : Type 0 where
  pub os_min : Option Text
  pub glibc_min : Option Text
  pub libs : Option (List Text)
  pub bin : List RequiredBin

pub record Artifact : Type 0 where
  pub name : Text
  pub os : Option Text
  pub arch : Option Text
  pub libc : Option Text
  pub variant : Option Text
  pub size : ℕ
  pub url : Option Text
  pub format : Option Text
  pub bin : List Bin
  pub requires : Option Requires
  pub provenance : List Text
  pub extensions : Extensions

-- `env` is the map's entries in the order of their keys.
pub record Resource : Type 0 where
  pub kind : Text
  pub artifact : Option Text
  pub os : Option Text
  pub arch : Option Text
  pub libc : Option Text
  pub shell : Option Text
  pub shells : List Text
  pub name : Option Text
  pub bin : Option Text
  pub format : Option Text
  pub archive : Option Text
  pub asset : Option Text
  pub url : Option Text
  pub repo : Option Text
  pub exec : List Text
  pub env : List (Text × Text)
  pub extensions : Extensions

pub record Predicate : Type 0 where
  pub project : Text
  pub version : Text
  pub published_at : Text
  pub source : Option Source
  pub artifacts : List Artifact
  pub resources : List Resource
  pub identity : Identity
  pub attested_by : Attestor
  pub evidence : List Evidence
  pub notes_url : Option Text
  pub extensions : Extensions

pub data ReleaseStatus : Type 0 where
  yanked : ReleaseStatus

pub record ReleaseRef : Type 0 where
  pub version : Text
  pub tag : Option Text
  pub published_at : Text
  pub packslip : Text
  pub status : Option ReleaseStatus
  pub status_reason : Option Text
  pub security : Bool
  pub extensions : Extensions
  pub evidence : List Evidence

pub record ReleaseList : Type 0 where
  pub project : Text
  pub generated_at : Text
  pub expires_at : Text
  pub sequence : ℕ
  pub identity : Identity
  pub latest : Option Text
  pub releases : List ReleaseRef
  pub extensions : Extensions

pub record Envelope (P : Type 0) : Type 0 where
  pub kind : Text
  pub subject : List Subject
  pub predicate_type : Text
  pub predicate : P

abbrev pub Statement : Type 0
Statement = Envelope Predicate

abbrev pub ReleaseListStatement : Type 0
ReleaseListStatement = Envelope ReleaseList
