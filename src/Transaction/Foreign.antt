-- ===== src/Transaction/Foreign.antt =====
-- `restore`, a round of the rollback in src/install_fs.rs, where somebody else has written.
use packslip.Base.{◌≡◌, refl, inl, inr, false, Option, none, some, err, Bool-cases}
use packslip.Transaction.State.{Entry, same, Operation, World, conflict}
use packslip.Transaction.Journal.{restore_on, restore}

restore_on-foreign :
    (op : Operation) (before after : Option Entry) (here : Entry) (backup staged : Option Entry)
    (w : World)
    → same (some here) before ≡ false
    → same (some here) after ≡ false
    → restore_on op before after (some here) backup staged w ≡ (err conflict, w)
unfolding restore_on
restore_on-foreign op before after here (some saved) staged w b a =
    elim (Bool-cases (same (some saved) before)) [ inl e ↦ rw (e, a) refl | inr e ↦ rw e refl ]
restore_on-foreign op none after here none staged w b a = rw a refl
restore_on-foreign op (some x) after here none staged w b a = rw b refl

-- The rollback of an operation whose destination holds neither what was there before nor what the
-- installation puts there reports a conflict and changes nothing.
pub restore-foreign :
    (op : Operation) (here : Entry) (w : World)
    → w.entry op.destination ≡ some here
    → same (some here) op.before ≡ false
    → same (some here) op.after ≡ false
    → restore op w ≡ (err conflict, w)
unfolding restore
restore-foreign op here w e b a = rw (e) (restore_on-foreign op op.before op.after here _ _ w b a)
