-- ===== src/Discovery/Candidates/Others.antt =====
-- `candidates_with_latest` of src/discovery.rs: which versions the stages after the merge keep.
use mathlib.Core.Path.{subst}
use mathlib.Core.Option.{some-injective}
use packslip.Base.{
  ◌≡◌, refl, sym, ap, ◌∙◌, inl, inr, Bool, true, false, not, arith, List, [], ◌∷◌, Option, none,
  some, find, select, All, All-append, All_imp, Bool-cases, Option-cases, ok, ok-injective,
}
use packslip.Base.Text.{Text, text_eq}
use packslip.Extract.Names.Split.{All_select}
use packslip.Document.{ReleaseRef, ReleaseListStatement}
use packslip.Discovery.{Release}
use packslip.Discovery.Requests.{matches_request}
use packslip.Discovery.Tables.{
  lookup, remove, values, AllEntries, lookup-AllEntries, remove-AllEntries, AllEntries-imp,
  values-All,
}
use packslip.Discovery.Merge.{is_nil, is_some, Merged, Request, exact_tag}
use packslip.Discovery.Merge.Kept.{IsCandidate, AreAlternates, IsKept}
use packslip.Discovery.Merge.Withdrawn.{Other, withdraws}
use packslip.Discovery.Recommendation.{Reason, stable, entries_of}
use packslip.Discovery.Candidates.{
  Candidates, insert_release, sort, or_nil, with_alternates, ordered, listed_entry, or_no_release,
  by_exact_tag, nonempty, first_marked, without_first_marked, nonempty_latest, matching, by_request,
  by_latest,
}

module _ (y : Text) where
  abbrev pub IsOther : Release → Type 0
  IsOther r = ¬ (r.version ≡ y)

  abbrev pub AllOther : Candidates → Type 0
  AllOther c = All IsOther c.releases

  values-Other :
      (choices : List (Text × Release))
      → AllEntries (IsCandidate (Other y)) choices
      → All IsOther (values choices)
  values-Other choices h =
      values-All IsOther choices (AllEntries-imp choices (λ k r (e, n) q. n (sym e ∙ q)) h)

  lookup-Other :
      (k : Text) (choices : List (Text × Release)) (r : Release)
      → AllEntries (IsCandidate (Other y)) choices
      → lookup k choices ≡ some r
      → IsOther r
  lookup-Other k choices r h e q =
      let (v, n) = lookup-AllEntries (IsCandidate (Other y)) k choices r h e in n (sym v ∙ q)

  module _ (above : Text → Text → Bool) where
    insert_release-All :
        (r : Release) (rs : List Release)
        → IsOther r
        → All IsOther rs
        → All IsOther (insert_release above r rs)
    insert_release-All r [] p h = (p, tt)
    insert_release-All r (x ∷ xs) p h = elim (Bool-cases (above x.version r.version)) [
      | inl e ↦ rw e (h.0, insert_release-All r xs p h.1)
      | inr e ↦ rw e (p, h)
    ]

    sort-All : (rs : List Release) → All IsOther rs → All IsOther (sort above rs)
    unfolding sort
    sort-All [] h = tt
    sort-All (r ∷ rs) h = insert_release-All r (sort above rs) h.0 (sort-All rs h.1)

    or_nil-All :
        (k : Text) (alternates : List (Text × List Release))
        → AllEntries (AreAlternates (Other y)) alternates
        → All IsOther (or_nil above (lookup k alternates))
    or_nil-All k alternates h = elim (Option-cases (lookup k alternates)) [
      | inl e ↦ rw e tt
      | inr (rs, e) ↦ rw e (
          All_imp rs (λ r (v, n) q. n (sym v ∙ q))
            (lookup-AllEntries (AreAlternates (Other y)) k alternates rs h e))
    ]

    with_alternates-All :
        (rs : List Release) (alternates : List (Text × List Release))
        → All IsOther rs
        → AllEntries (AreAlternates (Other y)) alternates
        → All IsOther (with_alternates above rs alternates)
    unfolding with_alternates
    with_alternates-All [] alternates h a = tt
    with_alternates-All (r ∷ rs) alternates h a = (
      h.0,
      All-append IsOther _ _ (or_nil-All r.version alternates a) (
          with_alternates-All rs (remove r.version alternates) h.1
            (remove-AllEntries (AreAlternates (Other y)) r.version alternates a)),
    )

    ordered-All :
        (rs : List Release) (alternates : List (Text × List Release))
        → All IsOther rs
        → AllEntries (AreAlternates (Other y)) alternates
        → All IsOther (ordered above rs alternates)
    unfolding ordered
    ordered-All rs alternates h a = with_alternates-All (sort above rs) alternates (sort-All rs h) a

  nonempty-All :
      (rs : List Release) (build : Option Text) (c : Candidates)
      → nonempty rs build ≡ ok c
      → All IsOther rs
      → AllOther c
  nonempty-All [] build c e h = cc
  nonempty-All (r ∷ rs) build c e h = subst AllOther (ok-injective e) h

  nonempty_latest-All :
      (rs : List Release) (skipped : List (Release × Reason)) (c : Candidates)
      → nonempty_latest rs skipped ≡ ok c
      → All IsOther rs
      → AllOther c
  nonempty_latest-All [] skipped c e h = cc
  nonempty_latest-All (r ∷ rs) skipped c e h = subst AllOther (ok-injective e) h

  without_first_marked-All :
      (rs : List Release) → All IsOther rs → All IsOther (without_first_marked rs)
  without_first_marked-All [] h = tt
  without_first_marked-All (r ∷ rs) h = elim (Bool-cases r.recommended) [
    | inl e ↦ rw e h.1
    | inr e ↦ rw e (h.0, without_first_marked-All rs h.1)
  ]

  find-All :
      (test : Release → Bool) (rs : List Release) (r : Release)
      → find test rs ≡ some r
      → All IsOther rs
      → IsOther r
  find-All test [] r e h = cc
  find-All test (x ∷ xs) r e h = elim (Bool-cases (test x)) [
    | inl t ↦ subst IsOther (some-injective _ _ (rw t at e)) h.0
    | inr t ↦ find-All test xs r (rw t at e) h.1
  ]

  entry_found :
      (entries : List ReleaseRef) (version : Text)
      → withdraws y entries ≡ true
      → version ≡ y
      → (e : ReleaseRef) × (find (λ x. text_eq x.version version) entries ≡ some e)
  entry_found [] version w q = cc
  entry_found (x ∷ entries) version w q = elim (Bool-cases (text_eq x.version version)) [
    | inl t ↦ (x, rw t refl)
    | inr t ↦
        let t' : text_eq x.version y ≡ false = subst (λ v. text_eq x.version v ≡ false) q t in
        let (e, f) = entry_found entries version (ground arith) q in (e, rw t f)
  ]

  -- An entry of the version decides what an exact tag of it names.
  listed_none :
      (entries : List ReleaseRef) (exact : Release)
      → withdraws y entries ≡ true
      → listed_entry entries exact ≡ none
      → IsOther exact
  unfolding listed_entry
  listed_none entries exact w e q =
      let (x, f) = entry_found entries exact.version w q in cc (rw (f, listed_entry) at e)

  or_no_release-All :
      (found : Option Release) (c : Candidates)
      → or_no_release found ≡ ok c
      → ((r : Release) → found ≡ some r → IsOther r)
      → AllOther c
  or_no_release-All none c e f = cc
  or_no_release-All (some r) c e f = subst AllOther (ok-injective e) (f r refl, tt)

  by_exact_tag-All :
      (entries : List ReleaseRef) (request : Request) (choices : List (Text × Release))
      (exact : Release) (c : Candidates)
      → withdraws y entries ≡ true
      → AllEntries (IsCandidate (Other y)) choices
      → by_exact_tag entries request choices exact ≡ some (ok c)
      → AllOther c
  unfolding by_exact_tag
  by_exact_tag-All entries request choices exact c w h e =
      elim (Option-cases (listed_entry entries exact)) [
        | inr (entry, l) ↦
            or_no_release-All (lookup entry.version choices) c
              (some-injective _ _ (rw (l, by_exact_tag) at e))
              (λ r q. lookup-Other entry.version choices r h q)
        | inl l ↦ elim (Bool-cases (not (is_nil exact.bundles))) [
          | inl b ↦
              subst AllOther (ok-injective (some-injective _ _ (rw (l, b, by_exact_tag) at e)))
                (listed_none entries exact w l, tt)
          | inr b ↦ elim (Bool-cases (is_some request.numeric)) [
            | inl n ↦ cc (rw (l, b, n, by_exact_tag) at e)
            | inr n ↦ cc (rw (l, b, n, by_exact_tag) at e)
          ]
        ]
      ]

  module _ (semver : Text → Option Bool) (in_range : Text → Text → Bool)
      (above : Text → Text → Bool) (live : List Release) (list : Option ReleaseListStatement) where
    matching-All :
        (request : Text) (m : Merged) (c : Candidates)
        → IsKept (Other y) m
        → matching semver in_range above live list request m ≡ ok c
        → AllOther c
    unfolding matching
    matching-All request m c (h, a) e =
        let fits : Release → Bool = λ r. matches_request semver in_range r request in
        nonempty-All _ m.yanked_build c e (
          All_select IsOther fits _ (
            ordered-All above _ m.alternates
              (All_select IsOther fits (values m.choices) (values-Other m.choices h)) a))

    pub by_request-All :
        (request : Request) (m : Merged) (c : Candidates)
        → withdraws y (entries_of list) ≡ true
        → IsKept (Other y) m
        → by_request semver in_range above live list request m ≡ ok c
        → AllOther c
    unfolding by_request
    by_request-All request m c w (h, a) e = elim (Option-cases (exact_tag live (some request))) [
      | inl n ↦ matching-All request.text m c (h, a) (rw (n, by_request) at e)
      | inr (exact, x) ↦
          elim (Option-cases (by_exact_tag (entries_of list) request m.choices exact)) [
            | inl n ↦ matching-All request.text m c (h, a) (rw (x, n, by_request) at e)
            | inr (result, n) ↦
                by_exact_tag-All (entries_of list) request m.choices exact c w h
                  (n ∙ ap some (rw (x, n, by_request) at e))
          ]
    ]

    pub by_latest-All :
        (latest_tag : Option Text) (m : Merged) (c : Candidates)
        → IsKept (Other y) m
        → by_latest semver in_range above live list latest_tag m ≡ ok c
        → AllOther c
    unfolding by_latest
    by_latest-All latest_tag m c (h, a) e =
        let eligible = ordered above (select (stable semver) (values m.choices)) m.alternates in
        let others : All IsOther eligible =
          ordered-All above _ m.alternates
            (All_select IsOther (stable semver) (values m.choices) (values-Other m.choices h)) a in
        elim (Option-cases (first_marked eligible)) [
          | inl n ↦ nonempty_latest-All eligible _ c (rw (n, by_latest) at e) others
          | inr (first, n) ↦
              nonempty_latest-All (first ∷ without_first_marked eligible) _ c
                (rw (n, by_latest) at e)
                (
                  find-All (λ r. r.recommended) eligible first n others,
                  without_first_marked-All eligible others,
                )
        ]
