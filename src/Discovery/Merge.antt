-- ===== src/Discovery/Merge.antt =====
-- `candidates_with_latest` of src/discovery.rs: the merge of a forge's releases with the signed list.
pub mod Kept
pub mod Withdrawn
use packslip.Base.{
  ◌≡◌, Bool, true, false, not, ◌&&◌, ◌||◌, List, [], ◌∷◌, ◌++◌, Option, none, some, map, any, find,
  length, ltb, if◌then◌else◌, Result, ok, err, ◌>>=◌,
}
use packslip.Base.Text.{Text, codes, text_eq, text_eq?, contains_byte, split}
use packslip.Document.{ReleaseRef, ReleaseList, ReleaseStatus, yanked}
use packslip.Discovery
use packslip.Discovery.{Release, Error}
use packslip.Discovery.Requests.{numeric_request, same_version}
use packslip.Discovery.Tables.{lookup, insert, remove, retain}

abbrev pub is_nil : {A : Type 0} → List A → Bool
is_nil [] = true
is_nil (_ ∷ _) = false

abbrev pub is_some : {A : Type 0} → Option A → Bool
is_some none = false
is_some (some _) = true

abbrev pub or_else : {A : Type 0} → Option A → Option A → Option A
or_else (some a) _ = some a
or_else none b = b

-- `ReleaseRef::is_yanked`
abbrev pub is_yanked : ReleaseRef → Bool
is_yanked entry = is_some entry.status

-- `choices`, `alternates` and `yanked_build`
pub record Merged : Type 0 where
  pub choices : List (Text × Release)
  pub alternates : List (Text × List Release)
  pub yanked_build : Option Text

abbrev or_nil : Option (List Release) → List Release
or_nil none = []
or_nil (some releases) = releases

abbrev add_second : Release → Release → Merged → Merged
add_second old release m =
    if is_nil old.bundles && not (is_nil release.bundles)
    then record m { choices = insert release.version release m.choices }
    else if not (is_nil release.bundles)
    then record m {
      alternates =
          insert release.version (or_nil (lookup release.version m.alternates) ++ (release ∷ []))
            m.alternates;
    }
    else m

abbrev add_live : Release → Merged → Merged
add_live release m = elim (lookup release.version m.choices) [
  | none ↦ record m { choices = insert release.version release m.choices }
  | some old ↦ add_second old release m
]

-- The loop over the forge's releases.
unfoldable pub merge_live : List Release → Merged → Merged
merge_live [] m = m
merge_live (release ∷ live) m = merge_live live (add_live release m)

-- What the request is: its text, its numeric reading, and whether that is a prefix of one or two
-- components.
pub record Request : Type 0 where
  pub text : Text
  pub numeric : Option Text
  pub numeric_prefix : Bool

abbrev is_prefix : Option Text → Bool
is_prefix none = false
is_prefix (some version) =
    not (contains_byte b'-' version || contains_byte b'+' version)
    && ltb (length (split b'.' version)) 3

unfoldable pub request_of : Text → Request
request_of text = record {
  text = text;
  numeric = numeric_request text;
  numeric_prefix = is_prefix (numeric_request text);
}

abbrev pub wanted : Request → Text
wanted r = elim r.numeric [ none ↦ r.text | some version ↦ version ]

-- `exact_tag`
unfoldable pub exact_tag : List Release → Option Request → Option Release
exact_tag live none = none
exact_tag live (some r) =
    if r.numeric_prefix then none else find (λ release. text_eq release.tag r.text) live

abbrev is_version : Option Release → Text → Bool
is_version none version = false
is_version (some release) version = text_eq release.version version

abbrev has_tag : Option Release → Text → Bool
has_tag none tag = false
has_tag (some release) tag = text_eq release.tag tag

-- Whether the request names a withdrawn entry itself, given the candidate that it removed.
unfoldable pub names_entry : Option Request → Option Release → ReleaseRef → Option Release → Bool
names_entry none exact entry removed = false
names_entry (some r) exact entry removed =
    text_eq (wanted r) entry.version
    || is_version exact entry.version
    || (not r.numeric_prefix && text_eq? entry.tag (some r.text))
    || (not r.numeric_prefix && has_tag removed r.text)

abbrev is_build_of : Option Request → Text → Bool
is_build_of none version = false
is_build_of (some r) version = same_version (wanted r) version

abbrev first_build : Option Text → Bool → Text → Option Text
first_build (some build) _ _ = some build
first_build none true version = some version
first_build none false version = none

abbrev tag_of : Option Release → Option Text
tag_of none = none
tag_of (some release) = some release.tag

module _ (live : List Release) (latest : Option Text) (latest_tag : Option Text) where
  abbrev github_latest : Text → Option Text
  github_latest version = tag_of (
      find (λ r. text_eq r.version version && (r.recommended || text_eq? latest_tag (some r.tag)))
        live)

  abbrev or_text : Option Text → Text → Text
  or_text none text = text
  or_text (some t) _ = t

  unfoldable pub entry_tag : ReleaseRef → Option Release → Text
  entry_tag entry choice =
      let of_github = if is_some latest then none else github_latest entry.version in
      or_text (or_else entry.tag (or_else of_github (tag_of choice))) entry.version

  abbrev is_recommended : Text → Text → Bool
  is_recommended version tag =
      text_eq? latest (some version)
      || (not (is_some latest)
          && (text_eq? latest_tag (some tag) || any (λ r. text_eq r.tag tag && r.recommended) live))

  -- The candidate of an entry that is not withdrawn.
  unfoldable pub listed : ReleaseRef → Option Release → Release
  unfolding entry_tag
  listed entry choice = record {
    version = entry.version;
    tag = entry_tag entry choice;
    bundles = entry.packslip ∷ [];
    recommended = is_recommended entry.version (entry_tag entry choice);
  }

  unfoldable pub add_entry :
      Option Request → Option Release → ReleaseRef → Merged → Result Error Merged
  unfolding listed
  add_entry request exact entry m =
      let removed = lookup entry.version m.choices in
      let others = remove entry.version m.alternates in
      if is_yanked entry
      then if names_entry request exact entry removed
        then err (Discovery.yanked entry.version)
        else ok (record {
          choices = remove entry.version m.choices;
          alternates = others;
          yanked_build =
              first_build m.yanked_build (is_build_of request entry.version) entry.version;
        })
      else ok (record {
        choices = insert entry.version (listed entry removed) m.choices;
        alternates = others;
        yanked_build = m.yanked_build;
      })

  -- The loop over the list's entries.
  unfoldable pub merge_entries :
      Option Request → Option Release → List ReleaseRef → Merged → Result Error Merged
  unfolding add_entry
  merge_entries request exact [] m = ok m
  merge_entries request exact (entry ∷ entries) m = do
    added ← add_entry request exact entry m
    merge_entries request exact entries added

-- `mapped.get(tag)`: the last entry with a tag decides.
unfoldable pub mapped : List ReleaseRef → Text → Option Text
mapped [] tag = none
mapped (entry ∷ entries) tag =
    or_else (mapped entries tag)
      (if text_eq? entry.tag (some tag) then some entry.version else none)

abbrev unmapped : List ReleaseRef → Text → Release → Bool
unmapped entries version release = elim (mapped entries release.tag) [
  | none ↦ true
  | some v ↦ text_eq v version
]

abbrev keep_unmapped : List ReleaseRef → Text → List Release → List Release
keep_unmapped entries version [] = []
keep_unmapped entries version (r ∷ others) =
    let rest = keep_unmapped entries version others in
    if unmapped entries version r then r ∷ rest else rest

abbrev move_first :
    Text → List Release → List (Text × Release) → List (Text × Release) × List Release
move_first version [] choices = (choices, [])
move_first version (r ∷ others) choices =
    if is_some (lookup version choices)
    then (choices, r ∷ others)
    else (insert version r choices, others)

-- The loop over the alternates after the mapped tags are dropped.
unfoldable pub move_alternates :
    List ReleaseRef
    → List (Text × List Release)
    → List (Text × Release)
    → List (Text × Release) × List (Text × List Release)
move_alternates entries [] choices = (choices, [])
move_alternates entries ((version, others) ∷ more) choices =
    let (c, o) = move_first version (keep_unmapped entries version others) choices in
    let (c', os) = move_alternates entries more c in (c', (version, o) ∷ os)

abbrev mark_choices : Option Text → List (Text × Release) → List (Text × Release)
mark_choices latest [] = []
mark_choices latest ((k, r) ∷ choices) =
    (k, record r { recommended = text_eq? latest (some r.version) }) ∷ mark_choices latest choices

abbrev pub unmarked : Release → Release
unmarked r = record r { recommended = false }

abbrev unmark : List (Text × List Release) → List (Text × List Release)
unmark [] = []
unmark ((k, rs) ∷ alternates) = (k, map unmarked rs) ∷ unmark alternates

abbrev marked :
    Option Text → List (Text × Release) × List (Text × List Release) → Option Text → Merged
marked none (choices, alternates) build = record {
  choices = choices;
  alternates = alternates;
  yanked_build = build;
}
marked (some latest) (choices, alternates) build = record {
  choices = mark_choices (some latest) choices;
  alternates = unmark alternates;
  yanked_build = build;
}

-- What follows the loop over the entries.
unfoldable pub apply_list : ReleaseList → Merged → Merged
unfolding mapped move_alternates
apply_list list m =
    marked list.latest
      (move_alternates list.releases m.alternates (retain (unmapped list.releases) m.choices))
      m.yanked_build
