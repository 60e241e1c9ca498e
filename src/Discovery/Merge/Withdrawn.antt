-- ===== src/Discovery/Merge/Withdrawn.antt =====
-- The merge of src/discovery.rs: a withdrawn version does not stay a candidate.
use mathlib.Core.Path.{subst}
use packslip.Base.{
  ◌≡◌, sym, ◌∙◌, inl, inr, Bool, true, ◌&&◌, arith, List, [], ◌∷◌, Option, any, All_imp, Pairwise,
  Bool-cases, ok, bind-eq-ok,
}
use packslip.Base.Text.{Text, text_eq, text_eq_iff}
use packslip.Document.{ReleaseRef}
use packslip.Discovery.{Release}
use packslip.Discovery.Tables.{AllEntries, AllEntries-imp, remove, remove_absent}
use packslip.Discovery.Merge.{is_yanked, Merged, Request, add_entry, merge_entries}
use packslip.Discovery.Merge.Kept.{
  IsCandidate, AreAlternates, IsKept, add_entry-cases, add_entry-IsKept, merge_entries-IsKept,
}

-- Nothing is asked of a version.
abbrev pub Any : Text → Type 0
Any k = Unit

-- Another version than the withdrawn one.
abbrev pub Other : Text → Text → Type 0
Other y k = ¬ (k ≡ y)

-- Whether the entries withdraw the version.
abbrev pub withdraws : Text → List ReleaseRef → Bool
withdraws y = any (λ e. text_eq e.version y && is_yanked e)

module _ (live : List Release) (latest latest_tag : Option Text) (request : Option Request)
    (exact : Option Release) where
  add_entry-withdrawn :
      (entry : ReleaseRef) (m out : Merged)
      → is_yanked entry ≡ true
      → IsKept Any m
      → add_entry live latest latest_tag request exact entry m ≡ ok out
      → IsKept (Other entry.version) out
  unfolding add_entry
  add_entry-withdrawn entry m out y (c, a) h =
      elim (add_entry-cases Any live latest latest_tag request exact entry m out h) [
        | inr (n, _, _) ↦ absurd (cc (sym y ∙ n))
        | inl (_, p, o) ↦ (
          subst (AllEntries (IsCandidate (Other entry.version))) (sym p) (
              AllEntries-imp (remove entry.version m.choices) (λ k r (n, (e, _)). (e, n))
                (remove_absent entry.version (IsCandidate Any) m.choices c)),
          subst (AllEntries (AreAlternates (Other entry.version))) (sym o) (
              AllEntries-imp (remove entry.version m.alternates)
                (λ k rs (n, all). All_imp rs (λ r (e, _). (e, n)) all)
                (remove_absent entry.version (AreAlternates Any) m.alternates a)),
        )
      ]

  -- The entries have distinct versions.
  pub merge_entries-withdrawn :
      (y : Text) (entries : List ReleaseRef) (m out : Merged)
      → Pairwise (λ a b. ¬ (a.version ≡ b.version)) entries
      → withdraws y entries ≡ true
      → IsKept Any m
      → merge_entries live latest latest_tag request exact entries m ≡ ok out
      → IsKept (Other y) out
  unfolding merge_entries
  merge_entries-withdrawn y [] m out p w k h = cc
  merge_entries-withdrawn y (e ∷ entries) m out p w k h =
      let (added, a, b) = bind-eq-ok (add_entry live latest latest_tag request exact e m) _ h in
      elim (Bool-cases (text_eq e.version y && is_yanked e)) [
        | inl x ↦
            let same : e.version ≡ y = (text_eq_iff e.version y).0 (ground arith) in
            merge_entries-IsKept (Other y) live latest latest_tag request exact entries added out
              (All_imp entries (λ f d q. d (same ∙ sym q)) p.0)
              (subst (λ v. IsKept (Other v) added) same
                (add_entry-withdrawn e m added (ground (arith, x)) k a))
              b
        | inr x ↦
            merge_entries-withdrawn y entries added out p.1 (ground (arith, x))
              (add_entry-IsKept Any live latest latest_tag request exact e m added tt k a) b
      ]
