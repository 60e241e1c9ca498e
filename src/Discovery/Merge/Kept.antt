-- ===== src/Discovery/Merge/Kept.antt =====
-- The merge of src/discovery.rs: what holds of the versions that stay candidates.
use mathlib.Core.Path.{subst}
use packslip.Base.{
  ◌≡◌, ◌⊎◌, refl, sym, ap, inl, inr, true, false, not, ◌&&◌, List, [], ◌∷◌, Option, none, some, All,
  All-append, Bool-cases, Option-cases, ok, bind-eq-ok, ok-injective, map,
}
use packslip.Base.Text.{Text}
use packslip.Document.{ReleaseRef, ReleaseList}
use packslip.Discovery.{Release}
use packslip.Discovery.Tables.{
  lookup, insert, remove, retain, AllEntries, lookup-AllEntries, insert-AllEntries,
  remove-AllEntries, retain-AllEntries,
}
use packslip.Discovery.Merge.{
  is_nil, is_some, is_yanked, Merged, add_live, or_nil, merge_live, Request, names_entry, listed,
  add_entry, merge_entries, unmapped, keep_unmapped, move_first, move_alternates, mark_choices,
  unmarked, unmark, marked, apply_list,
}

module _ (Q : Text → Type 0) where
  abbrev pub IsCandidate : Text → Release → Type 0
  IsCandidate k r = (r.version ≡ k) × Q k

  abbrev pub AreAlternates : Text → List Release → Type 0
  AreAlternates k rs = All (IsCandidate k) rs

  abbrev pub IsKept : Merged → Type 0
  IsKept m = AllEntries IsCandidate m.choices × AllEntries AreAlternates m.alternates

  or_nil-All :
      (k : Text) (alternates : List (Text × List Release))
      → AllEntries AreAlternates alternates
      → All (IsCandidate k) (or_nil (lookup k alternates))
  or_nil-All k alternates h = elim (Option-cases (lookup k alternates)) [
    | inl e ↦ rw e tt
    | inr (rs, e) ↦ rw e (lookup-AllEntries AreAlternates k alternates rs h e)
  ]

  add_live-IsKept : (r : Release) (m : Merged) → Q r.version → IsKept m → IsKept (add_live r m)
  add_live-IsKept r m q (c, a) = elim (Option-cases (lookup r.version m.choices)) [
    | inl e ↦ rw (e, add_live) (insert-AllEntries IsCandidate r.version r m.choices (refl, q) c, a)
    | inr (old, e) ↦ elim (Bool-cases (is_nil old.bundles && not (is_nil r.bundles))) [
      | inl b ↦
          rw (e, b, add_live) (insert-AllEntries IsCandidate r.version r m.choices (refl, q) c, a)
      | inr b ↦ elim (Bool-cases (not (is_nil r.bundles))) [
        | inl d ↦
            rw (e, b, d, add_live)
              ((
                c,
                insert-AllEntries AreAlternates r.version _ m.alternates
                    (All-append (IsCandidate r.version) _ (r ∷ [])
                      (or_nil-All r.version m.alternates a) ((refl, q), tt))
                    a,
              ))
        | inr d ↦ rw (e, b, d, add_live) (c, a)
      ]
    ]
  ]

  pub merge_live-IsKept :
      (live : List Release) (m : Merged)
      → All (λ r. Q r.version) live
      → IsKept m
      → IsKept (merge_live live m)
  unfolding merge_live
  merge_live-IsKept [] m q h = h
  merge_live-IsKept (r ∷ live) m q h =
      merge_live-IsKept live (add_live r m) q.1 (add_live-IsKept r m q.0 h)

  module _ (live : List Release) (latest : Option Text) (latest_tag : Option Text)
      (request : Option Request) (exact : Option Release) where
    pub add_entry-cases :
        (entry : ReleaseRef) (m out : Merged)
        → add_entry live latest latest_tag request exact entry m ≡ ok out
        → ((is_yanked entry ≡ true)
            × (out.choices ≡ remove entry.version m.choices)
            × (out.alternates ≡ remove entry.version m.alternates))
          ⊎ ((is_yanked entry ≡ false)
              × (out.choices
                  ≡ insert entry.version
                      (listed live latest latest_tag entry (lookup entry.version m.choices))
                      m.choices)
              × (out.alternates ≡ remove entry.version m.alternates))
    unfolding add_entry
    add_entry-cases entry m out h = elim (Bool-cases (is_yanked entry)) [
      | inr y ↦
          let e = ok-injective (rw (y, add_entry) at h) in
          inr (y, ap (λ u. u.choices) (sym e), ap (λ u. u.alternates) (sym e))
      | inl y ↦
          elim (Bool-cases (names_entry request exact entry (lookup entry.version m.choices))) [
            | inl n ↦ cc (rw (y, n, add_entry) at h)
            | inr n ↦
                let e = ok-injective (rw (y, n, add_entry) at h) in
                inl (y, ap (λ u. u.choices) (sym e), ap (λ u. u.alternates) (sym e))
          ]
    ]

    pub add_entry-IsKept :
        (entry : ReleaseRef) (m out : Merged)
        → Q entry.version
        → IsKept m
        → add_entry live latest latest_tag request exact entry m ≡ ok out
        → IsKept out
    unfolding listed
    add_entry-IsKept entry m out q (c, a) h = elim (add_entry-cases entry m out h) [
      | inl (y, p, o) ↦ (
        subst (AllEntries IsCandidate) (sym p)
            (remove-AllEntries IsCandidate entry.version m.choices c),
        subst (AllEntries AreAlternates) (sym o)
            (remove-AllEntries AreAlternates entry.version m.alternates a),
      )
      | inr (y, p, o) ↦ (
        subst (AllEntries IsCandidate) (sym p)
            (insert-AllEntries IsCandidate entry.version _ m.choices (refl, q) c),
        subst (AllEntries AreAlternates) (sym o)
            (remove-AllEntries AreAlternates entry.version m.alternates a),
      )
    ]

    pub merge_entries-IsKept :
        (entries : List ReleaseRef) (m out : Merged)
        → All (λ e. Q e.version) entries
        → IsKept m
        → merge_entries live latest latest_tag request exact entries m ≡ ok out
        → IsKept out
    unfolding merge_entries
    merge_entries-IsKept [] m out q k h = subst IsKept (ok-injective h) k
    merge_entries-IsKept (e ∷ entries) m out q k h =
        let (added, a, b) = bind-eq-ok (add_entry live latest latest_tag request exact e m) _ h in
        merge_entries-IsKept entries added out q.1 (add_entry-IsKept e m added q.0 k a) b

  keep_unmapped-All :
      (entries : List ReleaseRef) (k version : Text) (rs : List Release)
      → All (IsCandidate k) rs
      → All (IsCandidate k) (keep_unmapped entries version rs)
  keep_unmapped-All entries k version [] h = tt
  keep_unmapped-All entries k version (r ∷ rs) h = elim (Bool-cases (unmapped entries version r)) [
    | inl e ↦ rw e (h.0, keep_unmapped-All entries k version rs h.1)
    | inr e ↦ rw e (keep_unmapped-All entries k version rs h.1)
  ]

  move_first-IsKept :
      (k : Text) (rs : List Release) (choices : List (Text × Release))
      → All (IsCandidate k) rs
      → AllEntries IsCandidate choices
      → AllEntries IsCandidate (move_first k rs choices).0
        × All (IsCandidate k) (move_first k rs choices).1
  move_first-IsKept k [] choices h c = (c, tt)
  move_first-IsKept k (r ∷ rs) choices h c = elim (Bool-cases (is_some (lookup k choices))) [
    | inl e ↦ rw e (c, h)
    | inr e ↦ rw e (insert-AllEntries IsCandidate k r choices h.0 c, h.1)
  ]

  move_alternates-IsKept :
      (entries : List ReleaseRef) (alternates : List (Text × List Release))
      (choices : List (Text × Release))
      → AllEntries AreAlternates alternates
      → AllEntries IsCandidate choices
      → AllEntries IsCandidate (move_alternates entries alternates choices).0
        × AllEntries AreAlternates (move_alternates entries alternates choices).1
  unfolding move_alternates
  move_alternates-IsKept entries [] choices a c = (c, tt)
  move_alternates-IsKept entries ((k, rs) ∷ more) choices a c =
      let (x, y) =
        move_first-IsKept k (keep_unmapped entries k rs) choices
          (keep_unmapped-All entries k k rs a.0) c in
      let (p, q) =
        move_alternates-IsKept entries more (move_first k (keep_unmapped entries k rs) choices).0
          a.1 x in
      (p, (y, q))

  mark_choices-AllEntries :
      (latest : Option Text) (choices : List (Text × Release))
      → AllEntries IsCandidate choices
      → AllEntries IsCandidate (mark_choices latest choices)
  mark_choices-AllEntries latest [] h = tt
  mark_choices-AllEntries latest ((k, r) ∷ choices) h =
      (h.0, mark_choices-AllEntries latest choices h.1)

  unmarked-All :
      (k : Text) (rs : List Release)
      → All (IsCandidate k) rs
      → All (IsCandidate k) (map unmarked rs)
  unmarked-All k [] h = tt
  unmarked-All k (r ∷ rs) h = (h.0, unmarked-All k rs h.1)

  unmark-AllEntries :
      (alternates : List (Text × List Release))
      → AllEntries AreAlternates alternates
      → AllEntries AreAlternates (unmark alternates)
  unmark-AllEntries [] h = tt
  unmark-AllEntries ((k, rs) ∷ alternates) h =
      (unmarked-All k rs h.0, unmark-AllEntries alternates h.1)

  marked-IsKept :
      (latest : Option Text) (choices : List (Text × Release))
      (alternates : List (Text × List Release)) (build : Option Text)
      → AllEntries IsCandidate choices
      → AllEntries AreAlternates alternates
      → IsKept (marked latest (choices, alternates) build)
  marked-IsKept none choices alternates build c a = (c, a)
  marked-IsKept (some latest) choices alternates build c a =
      (mark_choices-AllEntries (some latest) choices c, unmark-AllEntries alternates a)

  pub apply_list-IsKept : (list : ReleaseList) (m : Merged) → IsKept m → IsKept (apply_list list m)
  unfolding apply_list
  apply_list-IsKept list m (c, a) =
      let (p, q) =
        move_alternates-IsKept list.releases m.alternates
          (retain (unmapped list.releases) m.choices) a
          (retain-AllEntries IsCandidate (unmapped list.releases) m.choices c) in
      marked-IsKept list.latest _ _ m.yanked_build p q
