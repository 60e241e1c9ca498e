-- ===== src/Transaction/Recovery.antt =====
-- `recover` of src/install_fs.rs, by the disk on which it starts.
use mathlib.Core.Path.{subst}
use mathlib.Core.Option.{some-injective}
use packslip.Base.{
  ◌≡◌, refl, sym, ◌∙◌, inl, inr, Bool, true, false, List, [], ◌∷◌, reverse, All-reverse,
  All-reverse_back, Option, some, All, All_imp,
}
use packslip.Extract.Names.{Components}
use packslip.Transaction.State.{Entry, Operation, Journal, Disk, World, ◌>>◌, remove_journal}
use packslip.Transaction.State.Laws.{Outcome, Triple, done_rule, call_rule, then_rule, weaken}
use packslip.Transaction.Journal.{recover, remove_pointers, remove_slots}
use packslip.Transaction.Stages.{AllSeparate, IsPrepared, IsInstalled, IsInFlight}
use packslip.Transaction.Rollback.{restore_all_rule}
use packslip.Transaction.Cleanup.{
  Shows, SlotsFine, Decided, Cleared, Cleaning, cleanup_rule, IsValid, validate_rule,
  AllSeparate-SlotsApart,
}
use packslip.Transaction.Decision.{
  before_of, after_of, AllSeparate-reverse, journal, IsActive, Reverts, idle, staged, active,
  undone, Lands, decided,
}
use packslip.Transaction.Moves.{Framed}

pub in_flight-SlotsFine :
    (d : Disk) (ops : List Operation) → All (IsInFlight d) ops → SlotsFine ops d
in_flight-SlotsFine d ops h =
    All_imp ops
      (λ op f. elim f [ inl p ↦ p.at_slot | inr (inl m) ↦ m.at_slot | inr (inr i) ↦ i.at_slot ]) h

pub prepared-Shows :
    (d : Disk) (ops : List Operation) → All (IsPrepared d) ops → Shows before_of ops d
prepared-Shows d ops h = All_imp ops (λ op p. p.at_destination) h

pub installed-Shows :
    (d : Disk) (ops : List Operation) → All (IsInstalled d) ops → Shows after_of ops d
installed-Shows d ops h = All_imp ops (λ op p. p.at_destination) h

-- The journal file is no path of an operation.
pub Framed_journal :
    (j : Option Journal) (ops : List Operation) → All (λ op. Framed op (λ d. d.journal ≡ j)) ops
Framed_journal j [] = tt
Framed_journal j (op ∷ ops) = ((λ from to d a b h. h), Framed_journal j ops)

-- The outcome of recovering the journal that is on disk.
at :
    (w : World) {j k : Journal} (Q C : Disk → Type 0)
    → some j ≡ some k
    → Outcome w.faults Q C (recover j w)
    → Outcome w.faults Q C (recover k w)
at w Q C e o = subst (λ j. Outcome w.faults Q C (recover j w)) (some-injective _ _ e) o

module _ (scopes : List Components) (ops : List Operation) (s : AllSeparate ops)
    (v : IsValid scopes ops) where
  recover-Decided :
      (a : Bool) (pick : Operation → Option Entry)
      → Triple
          (Decided (journal scopes ops a true) pick ops)
          (recover (journal scopes ops a true))
          (Cleared pick ops)
          (Cleaning (journal scopes ops a true) pick ops)
  unfolding recover
  recover-Decided true pick =
      then_rule _ _ _ _
        (weaken _ _ _ (validate_rule scopes ops true true _ v (λ d h. h.slots_fine)) (λ d h. h)
          (λ d h. h) (λ d h. inl h))
        (then_rule _ _ _ _ (done_rule _ _) (
          then_rule _ _ _ _ (done_rule _ _)
            (cleanup_rule _ pick ops scopes (AllSeparate-SlotsApart ops s))))
  recover-Decided false pick =
      then_rule _ _ _ _
        (weaken _ _ _ (validate_rule scopes ops false true _ v (λ d h. h.slots_fine)) (λ d h. h)
          (λ d h. h) (λ d h. inl h))
        (then_rule _ _ _ _ (done_rule _ _) (
          then_rule _ _ _ _ (done_rule _ _)
            (cleanup_rule _ pick ops scopes (AllSeparate-SlotsApart ops s))))

  -- After the rollback the decision is written, then all is cleaned up.
  undo_rule :
      (a : Bool)
      → Triple
          (Decided (journal scopes ops a true) before_of ops)
          (remove_pointers scopes >> (remove_slots ops >> remove_journal))
          (Cleared before_of ops)
          (Reverts scopes ops)
  undo_rule a =
      weaken _ _ _ (cleanup_rule _ before_of ops scopes (AllSeparate-SlotsApart ops s)) (λ d h. h)
        (λ d h. h) (λ d h. elim h [ inl k ↦ undone a k | inr k ↦ idle k ])

  recover_staged :
      Triple
        (Decided (journal scopes ops false false) before_of ops)
        (recover (journal scopes ops false false))
        (Cleared before_of ops)
        (Reverts scopes ops)
  unfolding recover
  recover_staged =
      then_rule _ _ _ _
        (weaken _ _ _ (validate_rule scopes ops false false _ v (λ d h. h.slots_fine)) (λ d h. h)
          (λ d h. h) (λ d h. staged h))
        (then_rule _ _ _ _ (done_rule _ _) (
          then_rule _ _ _ _
            (call_rule _ (Decided (journal scopes ops false true) before_of ops) _ _ (λ d h.
              let h' : Decided (journal scopes ops false true) before_of ops
                  (record d { journal = some (journal scopes ops false true) }) =
                record { journal_is = refl; slots_fine = h.slots_fine; shows = h.shows } in
              (staged h, undone false h', h')))
            (undo_rule false)))

  recover-IsActive :
      Triple
        (IsActive scopes ops)
        (recover (journal scopes ops true false))
        (Cleared before_of ops)
        (Reverts scopes ops)
  unfolding recover
  recover-IsActive =
      then_rule _ _ _ _
        (weaken _ _ _
          (validate_rule scopes ops true false (IsActive scopes ops) v
            (λ d h. in_flight-SlotsFine d ops h.in_flight))
          (λ d h. h) (λ d h. h) (λ d h. active h))
        (then_rule _
          (λ d. All (IsPrepared d) ops × (d.journal ≡ some (journal scopes ops true false))) _ _
          (weaken _ _ _
            (restore_all_rule (reverse ops) (λ d. d.journal ≡ some (journal scopes ops true false))
              (AllSeparate-reverse ops s) (All-reverse _ ops (Framed_journal _ ops)))
            (λ d h. (All-reverse (IsInFlight d) ops h.in_flight, h.journal_is))
            (λ d (p, j). (All-reverse_back (IsPrepared d) ops p, j))
            (λ d (f, j).
              active
                (record { journal_is = j; in_flight = All-reverse_back (IsInFlight d) ops f })))
          (then_rule _ _ _ _
            (call_rule _ (Decided (journal scopes ops true true) before_of ops) _ _ (λ d (p, j).
              let f : All (IsInFlight d) ops = All_imp ops (λ op q. inl q) p in
              let h' : Decided (journal scopes ops true true) before_of ops
                  (record d { journal = some (journal scopes ops true true) }) =
                record {
                  journal_is = refl;
                  slots_fine = in_flight-SlotsFine d ops f;
                  shows = prepared-Shows d ops p;
                } in
              (active (record { journal_is = j; in_flight = f }), undone true h', h')))
            (undo_rule true)))

  -- Recovery of the journal on disk, before the commit point: it ends with the destinations as they
  -- were, and a fault leaves it to be repeated.
  pub recover-Reverts :
      (w : World) {j : Journal}
      → Reverts scopes ops w.disk
      → w.disk.journal ≡ some j
      → Outcome w.faults (Cleared before_of ops) (Reverts scopes ops) (recover j w)
  recover-Reverts w (idle h) e = cc (sym e ∙ h.journal_gone)
  recover-Reverts w (staged h) e = at w _ _ (sym h.journal_is ∙ e) (recover_staged.runs w h)
  recover-Reverts w (active h) e = at w _ _ (sym h.journal_is ∙ e) (recover-IsActive.runs w h)
  recover-Reverts w (undone a h) e = at w _ _ (sym h.journal_is ∙ e) (
      (weaken _ _ _ (recover-Decided a before_of) (λ d k. k) (λ d k. k)
          (λ d k. elim k [ inl x ↦ undone a x | inr x ↦ idle x ])).runs
        w h)

  pub recover-Lands :
      (w : World) {j : Journal}
      → Lands scopes ops w.disk
      → w.disk.journal ≡ some j
      → Outcome w.faults (Cleared after_of ops) (Lands scopes ops) (recover j w)
  recover-Lands w (Lands.idle h) e = cc (sym e ∙ h.journal_gone)
  recover-Lands w (decided h) e = at w _ _ (sym h.journal_is ∙ e) (
      (weaken _ _ _ (recover-Decided true after_of) (λ d k. k) (λ d k. k)
          (λ d k. elim k [ inl x ↦ decided x | inr x ↦ Lands.idle x ])).runs
        w h)
