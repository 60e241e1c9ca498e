-- ===== src/Discovery/Candidates.antt =====
-- `candidates_with_latest` and `choose_with_latest` of src/discovery.rs. semver's precedence is a
-- parameter, and the texts that a report makes of its findings are left out.
pub mod Others
pub mod Withdrawn
use packslip.Base.{
  ◌≡◌, Bool, true, false, not, ◌&&◌, ◌||◌, List, [], ◌∷◌, ◌++◌, Option, none, some, map, any, find,
  select, if◌then◌else◌, Result, ok, err, ◌>>=◌, ◌>>◌, refuse_if,
}
use packslip.Base.Text.{Text, codes, text_eq, text_eq?}
use packslip.Document.{ReleaseRef, ReleaseList, Envelope, ReleaseListStatement}
use packslip.Discovery
use packslip.Discovery.{Release, Error, no_release}
use packslip.Discovery.Requests.{matches_request}
use packslip.Discovery.Tables.{lookup, remove, retain, values}
use packslip.Discovery.Recommendation.{
  Reason, stable, entries_of, has_some_tag, target, reason, skipped_target,
}
use packslip.Discovery.Merge.{
  is_nil, is_some, or_else, is_yanked, Merged, merge_live, Request, request_of, exact_tag,
  merge_entries, apply_list,
}

pub record Candidates : Type 0 where
  pub releases : List Release
  pub latest : Bool
  pub skipped : List (Release × Reason)
  pub recommendation : Option Text

abbrev pub single : Release → Candidates
single release = record {
  releases = release ∷ [];
  latest = false;
  skipped = [];
  recommendation = none;
}

module _ (semver : Text → Option Bool) where
  -- Every version is one of semver's.
  unfoldable pub check_versions : List Text → Result Error (Unit {0})
  check_versions [] = ok tt
  check_versions (v ∷ versions) = do
    refuse_if (not (is_some (semver v))) (Discovery.version v)
    check_versions versions

-- `sort_by` of the versions by descending precedence, which keeps the order of equals.
module _ (above : Text → Text → Bool) where
  abbrev pub insert_release : Release → List Release → List Release
  insert_release r [] = r ∷ []
  insert_release r (x ∷ xs) =
      let rest = insert_release r xs in if above x.version r.version then x ∷ rest else r ∷ x ∷ xs

  unfoldable pub sort : List Release → List Release
  sort [] = []
  sort (r ∷ releases) = insert_release r (sort releases)

  abbrev pub or_nil : Option (List Release) → List Release
  or_nil none = []
  or_nil (some releases) = releases

  unfoldable pub with_alternates : List Release → List (Text × List Release) → List Release
  with_alternates [] alternates = []
  with_alternates (r ∷ releases) alternates =
      r
      ∷ (or_nil (lookup r.version alternates)
          ++ with_alternates releases (remove r.version alternates))

  -- The closure `ordered`.
  unfoldable pub ordered : List Release → List (Text × List Release) → List Release
  unfolding sort with_alternates
  ordered releases alternates = with_alternates (sort releases) alternates

-- The entry that decides what an exact tag names.
unfoldable pub listed_entry : List ReleaseRef → Release → Option ReleaseRef
listed_entry entries exact =
    or_else (find (λ e. text_eq e.version exact.version) entries)
      (find (has_some_tag exact.tag) entries)

abbrev pub or_no_release : Option Release → Result Error Candidates
or_no_release none = err no_release
or_no_release (some r) = ok (single r)

-- `none` where the request goes on to the versions that match it.
unfoldable pub by_exact_tag :
    List ReleaseRef → Request → List (Text × Release) → Release → Option (Result Error Candidates)
unfolding listed_entry
by_exact_tag entries request choices exact = elim (listed_entry entries exact) [
  | some entry ↦ some (or_no_release (lookup entry.version choices))
  | none ↦
      if not (is_nil exact.bundles)
      then some (ok (single exact))
      else if is_some request.numeric
      then none
      else some (err no_release)
]

abbrev yanked_or_none : Option Text → Error
yanked_or_none none = no_release
yanked_or_none (some build) = Discovery.yanked build

abbrev pub nonempty : List Release → Option Text → Result Error Candidates
nonempty [] build = err (yanked_or_none build)
nonempty (r ∷ releases) build =
    ok (record { releases = r ∷ releases; latest = false; skipped = []; recommendation = none })

-- `eligible`, with the first recommended release moved to the front.
abbrev pub first_marked : List Release → Option Release
first_marked = find (λ r. r.recommended)

abbrev pub without_first_marked : List Release → List Release
without_first_marked [] = []
without_first_marked (r ∷ rs) =
    let rest = without_first_marked rs in if r.recommended then rs else r ∷ rest

abbrev pub nonempty_latest : List Release → List (Release × Reason) → Result Error Candidates
nonempty_latest [] skipped = err no_release
nonempty_latest (r ∷ releases) skipped = ok (record {
  releases = r ∷ releases;
  latest = true;
  skipped = skipped;
  recommendation = elim (first_marked (r ∷ releases)) [ none ↦ none | some m ↦ some m.tag ];
})

abbrev pub merge_list :
    List Release
    → Option ReleaseListStatement
    → Option Request
    → Option Text
    → Merged
    → Result Error Merged
merge_list live none request latest_tag m = ok m
merge_list live (some list) request latest_tag m = do
  merged ←
      merge_entries live list.predicate.latest latest_tag request (exact_tag live request)
        list.predicate.releases m
  ok (apply_list list.predicate merged)

abbrev pub constrains : Text → Bool
constrains request = not (text_eq request (codes "latest"))

abbrev pub requested_of : Option Text → Option Request
requested_of none = none
requested_of (some text) = some (request_of text)

abbrev pub has_bundles : Text → Release → Bool
has_bundles k r = not (is_nil r.bundles)

abbrev first_of : List Release → Result Error Release
first_of [] = err no_release
first_of (r ∷ _) = ok r

module _ (semver : Text → Option Bool) (in_range : Text → Text → Bool) (above : Text → Text → Bool)
    (live : List Release) (list : Option ReleaseListStatement) where
  -- The releases that match the request.
  unfoldable pub matching : Text → Merged → Result Error Candidates
  matching request m =
      let fits : Release → Bool = λ r. matches_request semver in_range r request in
      nonempty (select fits (ordered above (select fits (values m.choices)) m.alternates))
        m.yanked_build

  unfoldable pub by_request : Request → Merged → Result Error Candidates
  unfolding matching by_exact_tag
  by_request request m = elim (exact_tag live (some request)) [
    | none ↦ matching request.text m
    | some exact ↦ elim (by_exact_tag (entries_of list) request m.choices exact) [
      | some result ↦ result
      | none ↦ matching request.text m
    ]
  ]

  unfoldable pub by_latest : Option Text → Merged → Result Error Candidates
  unfolding target reason
  by_latest latest_tag m =
      let eligible = ordered above (select (stable semver) (values m.choices)) m.alternates in
      elim (first_marked eligible) [
        | some first ↦ nonempty_latest (first ∷ without_first_marked eligible) []
        | none ↦
            nonempty_latest eligible
              (skipped_target semver (entries_of list) (target live list latest_tag))
      ]

  abbrev pub choose_among : Option Text → Option Text → Merged → Result Error Candidates
  choose_among none latest_tag m = by_latest latest_tag m
  choose_among (some request) latest_tag m =
      if constrains request then by_request (request_of request) m else by_latest latest_tag m

  unfoldable pub candidates_with_latest : Option Text → Option Text → Result Error Candidates
  unfolding by_request by_latest
  candidates_with_latest requested latest_tag = do
    check_versions semver (map (λ r. r.version) live)
    check_versions semver (map (λ e. e.version) (entries_of list))
    merged ←
        merge_list live list (requested_of requested) latest_tag
          (merge_live live (record { choices = []; alternates = []; yanked_build = none }))
    choose_among requested latest_tag
        (record merged { choices = retain has_bundles merged.choices })

  unfoldable pub choose_with_latest : Option Text → Option Text → Result Error Release
  unfolding candidates_with_latest
  choose_with_latest requested latest_tag = do
    candidates ← candidates_with_latest requested latest_tag
    first_of candidates.releases
