-- ===== src/Transaction/History.antt =====
-- `commit` of src/install_fs.rs as a whole, and the sessions that are opened after it.
use mathlib.Core.Path.{subst}
use packslip.Base.{
  ◌≡◌, refl, sym, ◌∙◌, ◌⊎◌, inl, inr, false, List, [], Option, none, some, All_imp, Result, ok, err,
  Option-cases,
}
use packslip.Extract.Names.{Components}
use packslip.Transaction.State.{
  Entry, Operation, Journal, Disk, World, Error, ◌>>◌, write_journal, Fault, restart,
}
use packslip.Transaction.State.Laws.{Outcome, OutcomeOf, Triple, call_rule, then_rule, weaken}
use packslip.Transaction.Journal.{validate, recover, remove_slots}
use packslip.Transaction.Run.{
  commit, transact, finish, drop_slots, first_journal, reopen, reopen_on,
}
use packslip.Transaction.Stages.{AllSeparate}
use packslip.Transaction.Cleanup.{
  SlotsFine, Decided, Cleared, IsValid, validate_rule, AllSeparate-SlotsApart, remove_slots_rule,
  drop-Shows, drop-SlotsFine,
}
use packslip.Transaction.Moves.{drop}
use packslip.Transaction.Decision.{
  before_of, after_of, journal, Reverts, idle, staged, active, undone, Lands, decided,
}
use packslip.Transaction.Recovery.{
  in_flight-SlotsFine, prepared-Shows, recover-Reverts, recover-Lands,
}
use packslip.Transaction.Atomic.{
  IsReady, Final, transact_rule, finish-Final, Decided-early, Outcome_either,
}

-- The sessions after a process: each opens what the last one left, with faults of its own.
pub data Later (w : World) : World → Type 0 where
  here : Later w w
  again : (faults : List Fault) {w' : World} → Later w w' → Later w (reopen (restart faults w')).1

module _ (scopes : List Components) (ops : List Operation) (s : AllSeparate ops)
    (v : IsValid scopes ops) where
  -- Before the first journal or just after it, as far as its slots.
  abbrev Unstarted : Disk → Type 0
  Unstarted d = Cleared before_of ops d ⊎ Decided (journal scopes ops false false) before_of ops d

  ready-Cleared : (d : Disk) → IsReady scopes ops s none d → Cleared before_of ops d
  ready-Cleared d h = record {
    journal_gone = h.journal_is;
    shows = prepared-Shows d ops h.prepared;
  }

  ready-SlotsFine : (j : Option Journal) (d : Disk) → IsReady scopes ops s j d → SlotsFine ops d
  ready-SlotsFine j d h = in_flight-SlotsFine d ops (All_imp ops (λ op p. inl p) h.prepared)

  first_rule :
      Triple
        (IsReady scopes ops s none)
        (validate (first_journal scopes ops) >> write_journal (first_journal scopes ops))
        (IsReady scopes ops s (some (journal scopes ops false false)))
        Unstarted
  first_rule =
      then_rule _ (IsReady scopes ops s none) _ _
        (weaken _ _ _
          (validate_rule scopes ops false false (IsReady scopes ops s none) v
            (ready-SlotsFine none))
          (λ d h. h) (λ d h. h) (λ d h. inl (ready-Cleared d h)))
        (call_rule _ _ _ (λ d. record d { journal = some (journal scopes ops false false) })
          (λ d h.
            let h' : IsReady scopes ops s (some (journal scopes ops false false))
                (record d { journal = some (journal scopes ops false false) }) =
              record { journal_is = refl; prepared = h.prepared } in
            (inl (ready-Cleared d h), inr (Decided-early scopes ops s v h'), h')))

  drop_rule : Triple Unstarted (remove_slots ops) Unstarted Unstarted
  drop_rule = remove_slots_rule Unstarted ops (
      All_imp ops
        (λ op apart_all d h. elim h [
          | inl c ↦
              let c' : Cleared before_of ops (drop op.slot d) = record {
                journal_gone = c.journal_gone;
                shows = drop-Shows op before_of ops d apart_all c.shows;
              } in
              inl c'
          | inr c ↦
              let c' : Decided (journal scopes ops false false) before_of ops (drop op.slot d) =
                record {
                  journal_is = c.journal_is;
                  slots_fine = drop-SlotsFine op.slot ops d c.slots_fine;
                  shows = drop-Shows op before_of ops d apart_all c.shows;
                } in
              inr c'
        ])
        (AllSeparate-SlotsApart ops s))

  Unstarted-Reverts : (d : Disk) → Unstarted d → Reverts scopes ops d
  Unstarted-Reverts d (inl h) = idle h
  Unstarted-Reverts d (inr h) = staged h

  later-Final :
      (fs gs : List Fault) (r : Result Error (Unit {0})) (w : World)
      → (fs ≡ [] → gs ≡ [])
      → Final scopes ops s gs r w
      → Final scopes ops s fs r w
  later-Final fs gs (ok _) w k h = (h.0, λ e. h.1 (k e))
  later-Final fs gs (err _) w k h = (h.0, λ e. h.1 (k e))

  commit-Final :
      (w : World)
      → IsReady scopes ops s none w.disk
      → let (r, w') = commit scopes ops w in Final scopes ops s w.faults r w'
  unfolding commit
  commit-Final w h =
      go ((validate (first_journal scopes ops) >> write_journal (first_journal scopes ops)) w).0
        ((validate (first_journal scopes ops) >> write_journal (first_journal scopes ops)) w).1
        (first_rule.runs w h)
    where
      go :
          (r : Result Error (Unit {0})) (w₁ : World)
          → OutcomeOf w.faults
              (IsReady scopes ops s (some (journal scopes ops false false)))
              Unstarted
              r
              w₁
          → let (r', w') = drop_slots ops (r, w₁) in
            let (a, b) = elim r' as (λ _. Result Error (Unit {0}) × World) [
              | err e ↦ (err e, w')
              | ok _ ↦ finish (first_journal scopes ops) (transact (first_journal scopes ops) w')
            ] in
            Final scopes ops s w.faults a b
      go (ok _) w₁ o =
          later-Final w.faults w₁.faults _ _ o.1
            (finish-Final scopes ops s v w₁.faults _ _ ((transact_rule scopes ops s).runs w₁ o.0))
      go (err e) w₁ (h, ne) = (
        Unstarted-Reverts _ (
            Outcome_either w₁.faults Unstarted (remove_slots ops w₁).0 (remove_slots ops w₁).1
              (drop_rule.runs w₁ h)),
        ne,
      )

-- A state that recovery keeps when it fails, and ends when it does not.
module _ (ops : List Operation) (pick : Operation → Option Entry) (Kept : Disk → Type 0)
    (ended : (d : Disk) → Cleared pick ops d → Kept d)
    (gone : (d : Disk) → Kept d → d.journal ≡ none → Cleared pick ops d)
    (back : (w : World) (j : Journal)
      → Kept w.disk
      → w.journal ≡ some j
      → Outcome w.faults (Cleared pick ops) Kept (recover j w)) where
  reopen-Kept : (w : World) → Kept w.disk → Outcome w.faults (Cleared pick ops) Kept (reopen w)
  unfolding reopen
  reopen-Kept w h = elim (Option-cases w.journal) [
    | inl e ↦
        subst (λ x. Outcome w.faults (Cleared pick ops) Kept (reopen_on x w)) (sym e)
          (gone w.disk h e, λ z. z)
    | inr (j, e) ↦
        subst (λ x. Outcome w.faults (Cleared pick ops) Kept (reopen_on x w)) (sym e) (back w j h e)
  ]

  Outcome_kept :
      (fs : List Fault) (r : Result Error (Unit {0})) (w : World)
      → OutcomeOf fs (Cleared pick ops) Kept r w
      → Kept w.disk
  Outcome_kept fs (ok _) w o = ended w.disk o.0
  Outcome_kept fs (err _) w o = o.0

  later-Kept : {w w' : World} → Later w w' → Kept w.disk → Kept w'.disk
  later-Kept here h = h
  later-Kept (again faults {w'} l) h =
      Outcome_kept faults _ _ (reopen-Kept (restart faults w') (later-Kept l h))

  Outcome_ended :
      (r : Result Error (Unit {0})) (w : World)
      → OutcomeOf [] (Cleared pick ops) Kept r w
      → Cleared pick ops w.disk
  Outcome_ended (ok _) w o = o.0
  Outcome_ended (err _) w o = absurd (o.1 refl)

  Later-Cleared :
      {w w' : World} → Later w w' → Kept w.disk → Cleared pick ops (reopen (restart [] w')).1.disk
  Later-Cleared {w'} l h = Outcome_ended _ _ (reopen-Kept (restart [] w') (later-Kept l h))

-- What the caller of `commit` is told to find at the destinations.
abbrev pub told : Result Error (Unit {0}) → Operation → Option Entry
told (ok _) = after_of
told (err _) = before_of

module _ (scopes : List Components) (ops : List Operation) (s : AllSeparate ops)
    (v : IsValid scopes ops) where
  Reverts-gone : (d : Disk) → Reverts scopes ops d → d.journal ≡ none → Cleared before_of ops d
  Reverts-gone d (idle h) e = h
  Reverts-gone d (staged h) e = cc (sym e ∙ h.journal_is)
  Reverts-gone d (active h) e = cc (sym e ∙ h.journal_is)
  Reverts-gone d (undone a h) e = cc (sym e ∙ h.journal_is)

  Lands-gone : (d : Disk) → Lands scopes ops d → d.journal ≡ none → Cleared after_of ops d
  Lands-gone d (Lands.idle h) e = h
  Lands-gone d (decided h) e = cc (sym e ∙ h.journal_is)

  history :
      (fs : List Fault) (r : Result Error (Unit {0})) {w w' : World}
      → Final scopes ops s fs r w
      → Later w w'
      → Cleared (told r) ops (reopen (restart [] w')).1.disk
  history fs (ok _) f l =
      Later-Cleared ops after_of (Lands scopes ops) (λ d h. Lands.idle h) Lands-gone
        (λ w j h e. recover-Lands scopes ops s v w h e) l f.0
  history fs (err _) f l =
      Later-Cleared ops before_of (Reverts scopes ops) (λ d h. idle h) Reverts-gone
        (λ w j h e. recover-Reverts scopes ops s v w h e) l f.0

-- Whatever calls of `commit` fail or stop the process, and whatever calls of any number of later
-- sessions do, the next session without a fault leaves no journal, and at every destination the
-- new entry if `commit` reported success and the old one if it reported an error. This is for
-- operations whose paths are apart and in order for `validate`, prepared in their slots, on a disk
-- without a journal.
pub commit-Atomic :
    (scopes : List Components) (ops : List Operation) (s : AllSeparate ops)
    → IsValid scopes ops
    → (w w' : World) → IsReady scopes ops s none w.disk
    → Later (commit scopes ops w).1 w'
    → Cleared (told (commit scopes ops w).0) ops (reopen (restart [] w')).1.disk
commit-Atomic scopes ops s v w w' h l =
    history scopes ops s v w.faults (commit scopes ops w).0 (commit-Final scopes ops s v w h) l

-- Without a fault `commit` succeeds for operations whose paths are apart and in order for `validate`,
-- prepared in their slots, on a disk without a journal: every destination then holds its new entry,
-- and no journal is left.
pub commit-Cleared :
    (scopes : List Components) (ops : List Operation) (s : AllSeparate ops)
    → IsValid scopes ops
    → (w : World) → IsReady scopes ops s none w.disk
    → w.faults ≡ []
    → ((commit scopes ops w).0 ≡ ok tt) × Cleared after_of ops (commit scopes ops w).1.disk
commit-Cleared scopes ops s v w h e =
    split (commit scopes ops w).0 (commit scopes ops w).1 (commit-Final scopes ops s v w h)
  where
    split :
        (r : Result Error (Unit {0})) (w' : World)
        → Final scopes ops s w.faults r w'
        → (r ≡ ok tt) × Cleared after_of ops w'.disk
    split (ok tt) w' f = (refl, f.1 e)
    split (err _) w' f = absurd (f.1 e)
