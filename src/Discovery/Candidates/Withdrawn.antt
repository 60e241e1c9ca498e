-- ===== src/Discovery/Candidates/Withdrawn.antt =====
-- `candidates_with_latest` of src/discovery.rs on a list that withdraws a version.
use mathlib.Core.Path.{subst}
use packslip.Base.{
  ◌≡◌, inl, inr, Bool, true, List, [], ◌∷◌, Option, none, some, map, All, Pairwise, Bool-cases, ok,
  bind-eq-ok, ok-injective,
}
use packslip.Base.Text.{Text}
use packslip.Document.{ReleaseListStatement}
use packslip.Document.ReleaseLists.{validate_list}
use packslip.Document.ReleaseLists.Wellformed.{validate_list-IsWellformedList}
use packslip.Discovery.{Release}
use packslip.Discovery.Tables.{retain, retain-AllEntries}
use packslip.Discovery.Merge.{Merged, Request, request_of, exact_tag, merge_live, merge_entries}
use packslip.Discovery.Merge.Kept.{IsCandidate, IsKept, merge_live-IsKept, apply_list-IsKept}
use packslip.Discovery.Merge.Withdrawn.{Any, Other, withdraws, merge_entries-withdrawn}
use packslip.Discovery.Candidates.{
  Candidates, check_versions, has_bundles, candidates_with_latest, merge_list, choose_among,
  requested_of, constrains,
}
use packslip.Discovery.Candidates.Others.{AllOther, by_request-All, by_latest-All}

all-Any : (live : List Release) → All (λ r. Any r.version) live
all-Any [] = tt
all-Any (r ∷ live) = (tt, all-Any live)

abbrev nothing : Merged
nothing = record { choices = []; alternates = []; yanked_build = none }

merge_list-Other :
    (y : Text) (live : List Release) (list : ReleaseListStatement) (request : Option Request)
    (latest_tag : Option Text) (merged : Merged)
    → Pairwise (λ a b. ¬ (a.version ≡ b.version)) list.predicate.releases
    → withdraws y list.predicate.releases ≡ true
    → merge_list live (some list) request latest_tag (merge_live live nothing) ≡ ok merged
    → IsKept (Other y) merged
merge_list-Other y live list request latest_tag merged p w h =
    let p' = list.predicate in
    let (m, a, b) =
      bind-eq-ok
        (merge_entries live p'.latest latest_tag request (exact_tag live request) p'.releases
          (merge_live live nothing))
        _ h in
    subst (IsKept (Other y)) (ok-injective b) (
      apply_list-IsKept (Other y) p' m (
        merge_entries-withdrawn live p'.latest latest_tag request (exact_tag live request) y
          p'.releases (merge_live live nothing) m p w
          (merge_live-IsKept Any live nothing (all-Any live) (tt, tt)) a))

module _ (semver : Text → Option Bool) (in_range : Text → Text → Bool)
    (above : Text → Text → Bool) where
  no_candidate-withdrawn :
      (y : Text) (live : List Release) (list : ReleaseListStatement) (requested : Option Text)
      (latest_tag : Option Text) (c : Candidates)
      → Pairwise (λ a b. ¬ (a.version ≡ b.version)) list.predicate.releases
      → withdraws y list.predicate.releases ≡ true
      → candidates_with_latest semver in_range above live (some list) requested latest_tag ≡ ok c
      → All (λ r. ¬ (r.version ≡ y)) c.releases
  unfolding candidates_with_latest
  no_candidate-withdrawn y live list requested latest_tag c p w h =
      let (_, _, h₁) = bind-eq-ok (check_versions semver (map (λ r. r.version) live)) _ h in
      let (_, _, h₂) =
        bind-eq-ok (check_versions semver (map (λ e. e.version) list.predicate.releases)) _ h₁ in
      let (merged, a, h₃) =
        bind-eq-ok
          (merge_list live (some list) (requested_of requested) latest_tag
            (merge_live live nothing))
          _ h₂ in
      let (choices, alternates) = merge_list-Other y live list _ latest_tag merged p w a in
      chosen requested (record merged { choices = retain has_bundles merged.choices })
        (retain-AllEntries (IsCandidate (Other y)) has_bundles merged.choices choices, alternates)
        h₃
    where
      chosen :
          (requested : Option Text) (m : Merged)
          → IsKept (Other y) m
          → choose_among semver in_range above live (some list) requested latest_tag m ≡ ok c
          → AllOther y c
      chosen none m k e = by_latest-All y semver in_range above live (some list) latest_tag m c k e
      chosen (some request) m k e = elim (Bool-cases (constrains request)) [
        | inl b ↦
            by_request-All y semver in_range above live (some list) (request_of request) m c w k
              (rw b at e)
        | inr b ↦
            by_latest-All y semver in_range above live (some list) latest_tag m c k (rw b at e)
      ]

  module _ {V T : Type 0} (parse : Text → Option V) (timestamp : Text → Option T)
      (later : T → T → Bool) where
    -- Where `validate` accepts the signed list, no candidate has a version that the list withdraws:
    -- not for a request by its version, its tag or a range, and not for the latest.
    pub candidates-withdrawn :
        (y : Text) (live : List Release) (list : ReleaseListStatement) (requested : Option Text)
        (latest_tag : Option Text) (c : Candidates)
        → validate_list parse timestamp later list ≡ ok tt
        → withdraws y list.predicate.releases ≡ true
        → candidates_with_latest semver in_range above live (some list) requested latest_tag ≡ ok c
        → All (λ r. ¬ (r.version ≡ y)) c.releases
    candidates-withdrawn y live list requested latest_tag c v w h =
        no_candidate-withdrawn y live list requested latest_tag c
          (validate_list-IsWellformedList parse timestamp later list v).versions_distinct w h
