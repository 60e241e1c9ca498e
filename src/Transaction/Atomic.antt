-- ===== src/Transaction/Atomic.antt =====
-- The closure of `commit_inner` of src/install_fs.rs and what follows it, by the disks it leaves.
use mathlib.Core.Path.{subst}
use packslip.Base.{
  ◌≡◌, ◌≢◌, refl, sym, inl, inr, true, false, List, [], ◌∷◌, Option, some, All, All_imp, Result, ok,
  err,
}
use packslip.Extract.Names.{Components}
use packslip.Transaction.State.{
  Operation, Journal, Disk, World, M, Error, ◌>>◌, fail, set_pointer, Fault,
}
use packslip.Transaction.State.Laws.{
  Outcome, OutcomeOf, Triple, done_rule, call_rule, then_rule, weaken,
}
use packslip.Transaction.Journal.{recover}
use packslip.Transaction.Run.{transact, write_pointers, finish, settle}
use packslip.Transaction.Stages.{AllSeparate, IsPrepared, IsInstalled, IsInFlight}
use packslip.Transaction.Publish.{publish_all_rule}
use packslip.Transaction.Cleanup.{Decided, Cleared, IsValid}
use packslip.Transaction.Decision.{
  before_of, after_of, journal, IsActive, Reverts, idle, staged, active, Lands, decided,
}
use packslip.Transaction.Recovery.{
  in_flight-SlotsFine, prepared-Shows, installed-Shows, Framed_journal, recover-Reverts,
  recover-Lands,
}

-- On either outcome.
pub Outcome_either :
    (fs : List Fault) (P : Disk → Type 0) (r : Result Error (Unit {0})) (w : World)
    → OutcomeOf fs P P r w
    → P w.disk
Outcome_either fs P (ok _) w o = o.0
Outcome_either fs P (err _) w o = o.0

module _ (scopes : List Components) (ops : List Operation) (s : AllSeparate ops) where
  -- All operations are prepared, and the journal file is `j`.
  pub record IsReady (j : Option Journal) (d : Disk) : Type 0 where
    pub journal_is : d.journal ≡ j
    pub prepared : All (IsPrepared d) ops

  -- Where an error can leave the closure of the transaction.
  pub data Interrupted (d : Disk) : Type 0 where
    early : IsReady (some (journal scopes ops false false)) d → Interrupted d
    midway : IsActive scopes ops d → Interrupted d
    landed : Decided (journal scopes ops true true) after_of ops d → Interrupted d

  write_pointers_rule :
      (rest : List Components) (j : Option Journal)
      → Triple (IsReady j) (write_pointers rest) (IsReady j) (IsReady j)
  unfolding write_pointers
  write_pointers_rule [] j = done_rule _ _
  write_pointers_rule (scope ∷ rest) j =
      then_rule _ _ _ _
        (call_rule _ (IsReady j) _ (λ d. record d { pointer = set_pointer scope true d.pointer })
          (λ d h.
            let h' : IsReady j (record d { pointer = set_pointer scope true d.pointer }) = record {
              journal_is = h.journal_is;
              prepared = h.prepared;
            } in
            (h, h', h')))
        (write_pointers_rule rest j)

  pub transact_rule :
      Triple
        (IsReady (some (journal scopes ops false false)))
        (transact (journal scopes ops false false))
        (Decided (journal scopes ops true true) after_of ops)
        Interrupted
  unfolding transact
  transact_rule =
      then_rule _ _ _ _
        (weaken _ _ _ (write_pointers_rule scopes _) (λ d h. h) (λ d h. h) (λ d h. early h))
        (then_rule _ (IsReady (some (journal scopes ops true false))) _ _
          (call_rule _ _ _ (λ d. record d { journal = some (journal scopes ops true false) })
            (λ d h.
              let h' : IsReady (some (journal scopes ops true false))
                  (record d { journal = some (journal scopes ops true false) }) =
                record { journal_is = refl; prepared = h.prepared } in
              (early h, midway (in_flight _ h'), h')))
          (then_rule _
            (λ d. All (IsInstalled d) ops × (d.journal ≡ some (journal scopes ops true false))) _ _
            (weaken _ _ _
              (publish_all_rule ops (λ d. d.journal ≡ some (journal scopes ops true false)) s
                (Framed_journal _ ops))
              (λ d h. (h.prepared, h.journal_is)) (λ d h. h)
              (λ d (f, j). midway (record { journal_is = j; in_flight = f })))
            (call_rule _ _ _ (λ d. record d { journal = some (journal scopes ops true true) })
              (λ d (i, j).
                let f : All (IsInFlight d) ops = All_imp ops (λ op q. inr (inr q)) i in
                let h' : Decided (journal scopes ops true true) after_of ops
                    (record d { journal = some (journal scopes ops true true) }) =
                  record {
                    journal_is = refl;
                    slots_fine = in_flight-SlotsFine d ops f;
                    shows = installed-Shows d ops i;
                  } in
                (midway (record { journal_is = j; in_flight = f }), landed h', h')))))
    where
      in_flight :
          (d : Disk) → IsReady (some (journal scopes ops true false)) d → IsActive scopes ops d
      in_flight d h = record {
        journal_is = h.journal_is;
        in_flight = All_imp ops (λ op q. inl q) h.prepared;
      }

  -- What `commit` leaves: on success the installation has happened, and without faults nothing of
  -- the transaction is left; on an error recovery goes back, and there was a fault.
  abbrev pub Final : List Fault → Result Error (Unit {0}) → World → Type 0
  Final fs (ok _) w = Lands scopes ops w.disk × (fs ≡ [] → Cleared after_of ops w.disk)
  Final fs (err _) w = Reverts scopes ops w.disk × (fs ≢ [])

  module _ (v : IsValid scopes ops) where
    after_landing :
        (fs : List Fault) (r : Result Error (Unit {0})) (w : World) (started : List Fault)
        → (started ≡ [] → fs ≡ [])
        → OutcomeOf fs (Cleared after_of ops) (Lands scopes ops) r w
        → Final started (ok tt) w
    after_landing fs (ok _) w started k o = (Lands.idle o.0, λ e. o.0)
    after_landing fs (err _) w started k o = (o.0, λ e. absurd (o.1 (k e)))

    after_rollback :
        (fs : List Fault) (r : Result Error (Unit {0})) (w : World)
        → OutcomeOf fs (Cleared before_of ops) (Reverts scopes ops) r w
        → Reverts scopes ops w.disk
    after_rollback fs (ok _) w o = idle o.0
    after_rollback fs (err _) w o = o.0

    -- The journal that is on disk is the one that is settled.
    given :
        (fs : List Fault) (e : Error) (w : World) (o : Option Journal)
        → w.journal ≡ o
        → Final fs (settle e o w).0 (settle e o w).1
        → Final fs (settle e w.journal w).0 (settle e w.journal w).1
    given fs e w o h = subst (λ x. Final fs (settle e x w).0 (settle e x w).1) (sym h)

    failed :
        (fs : List Fault)
        → fs ≢ []
        → (e : Error) (m : M (Unit {0})) (w : World)
        → Outcome w.faults (Cleared before_of ops) (Reverts scopes ops) (m w)
        → Final fs (◌>>◌ {B = Unit {0}} m (fail e) w).0 (◌>>◌ {B = Unit {0}} m (fail e) w).1
    failed fs ne e m w o = go (m w).0 (m w).1 o
      where
        go :
            (r : Result Error (Unit {0})) (w' : World)
            → OutcomeOf w.faults (Cleared before_of ops) (Reverts scopes ops) r w'
            → let (a, b) = elim r as (λ _. Result Error (Unit {0}) × World) [
              | ok _ ↦ fail e w'
              | err x ↦ (err x, w')
            ] in
              Final fs a b
        go (ok _) w' o = (idle o.0, ne)
        go (err _) w' o = (o.0, ne)

    pub Decided-early :
        {d : Disk}
        → IsReady (some (journal scopes ops false false)) d
        → Decided (journal scopes ops false false) before_of ops d
    Decided-early {d} h = record {
      journal_is = h.journal_is;
      slots_fine = in_flight-SlotsFine d ops (All_imp ops (λ op p. inl p) h.prepared);
      shows = prepared-Shows d ops h.prepared;
    }

    pub finish-Final :
        (fs : List Fault) (r : Result Error (Unit {0})) (w : World)
        → OutcomeOf fs (Decided (journal scopes ops true true) after_of ops) Interrupted r w
        → let (r', w') = finish (journal scopes ops false false) (r, w) in Final fs r' w'
    finish-Final fs (ok _) w o =
        after_landing w.faults _ _ fs o.1
          (recover-Lands scopes ops s v w (decided o.0) o.0.journal_is)
    finish-Final fs (err e) w (i, ne) = elim i [
      | early h ↦ given fs e w _ h.journal_is (
          failed fs ne e (recover (journal scopes ops false false)) w
            (recover-Reverts scopes ops s v w (staged (Decided-early h)) h.journal_is))
      | midway h ↦ given fs e w _ h.journal_is (
          failed fs ne e (recover (journal scopes ops true false)) w
            (recover-Reverts scopes ops s v w (active h) h.journal_is))
      | landed h ↦ given fs e w _ h.journal_is (
          after_landing w.faults _ _ fs (λ z. absurd (ne z))
            (recover-Lands scopes ops s v w (decided h) h.journal_is))
    ]
