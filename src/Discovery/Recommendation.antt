-- ===== src/Discovery/Recommendation.antt =====
-- `candidates_with_latest` of src/discovery.rs: the recommendation that it names, and why it set one
-- aside.
use packslip.Base.{
  Bool, true, false, not, ◌&&◌, List, [], ◌∷◌, Option, none, some, any, find, if◌then◌else◌,
}
use packslip.Base.Text.{Text, text_eq, text_eq?}
use packslip.Document.{ReleaseRef, ReleaseListStatement}
use packslip.Discovery.{Release}
use packslip.Discovery.Merge.{or_else, is_yanked}

pub data Reason : Type 0 where
  withdrawn prerelease no_packslip : Reason
  mapped_to : Text → Reason

abbrev is_true : Option Bool → Bool
is_true none = false
is_true (some b) = b

abbrev pub stable : (Text → Option Bool) → Release → Bool
stable semver r = is_true (semver r.version)

abbrev pub entries_of : Option ReleaseListStatement → List ReleaseRef
entries_of none = []
entries_of (some list) = list.predicate.releases

abbrev latest_of : Option ReleaseListStatement → Option Text
latest_of none = none
latest_of (some list) = list.predicate.latest

abbrev pub has_some_tag : Text → ReleaseRef → Bool
has_some_tag tag entry = text_eq? entry.tag (some tag)

abbrev target_entry : Text → Option ReleaseRef → Option Release
target_entry tag none = none
target_entry tag (some entry) =
    some (record { version = entry.version; tag = tag; bundles = []; recommended = true })

abbrev own_tag : ReleaseRef → Text
own_tag entry = elim entry.tag [ none ↦ entry.version | some tag ↦ tag ]

abbrev target_version : Option ReleaseRef → Option Release
target_version none = none
target_version (some entry) = target_entry (own_tag entry) (some entry)

-- The recommendation as discovery names it.
unfoldable pub target : List Release → Option ReleaseListStatement → Option Text → Option Release
target live list latest_tag = elim (latest_of list) [
  | some version ↦ target_version (find (λ e. text_eq e.version version) (entries_of list))
  | none ↦ elim latest_tag [
    | none ↦ none
    | some tag ↦
        or_else (target_entry tag (find (has_some_tag tag) (entries_of list)))
          (find (λ r. text_eq r.tag tag) live)
  ]
]

abbrev other_tag : Text → Option Text → Reason
other_tag tag none = no_packslip
other_tag tag (some t) = if text_eq t tag then no_packslip else mapped_to t

abbrev tag_of : Option ReleaseRef → Option Text
tag_of none = none
tag_of (some entry) = entry.tag

unfoldable pub reason : (Text → Option Bool) → List ReleaseRef → Release → Reason
reason semver entries t =
    if any (λ e. text_eq e.version t.version && is_yanked e) entries
    then withdrawn
    else if not (stable semver t)
    then prerelease
    else other_tag t.tag (tag_of (find (λ e. text_eq e.version t.version) entries))

abbrev pub skipped_target :
    (Text → Option Bool) → List ReleaseRef → Option Release → List (Release × Reason)
skipped_target semver entries none = []
skipped_target semver entries (some t) = (t, reason semver entries t) ∷ []
