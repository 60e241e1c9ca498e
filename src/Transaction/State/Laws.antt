-- ===== src/Transaction/State/Laws.antt =====
-- Rules for the calls: what holds after a run that succeeds, what holds after one that fails, and
-- that a run fails only by a fault.
use packslip.Base.{◌≡◌, ◌≢◌, refl, Bool, true, false, List, [], ◌∷◌, Result, ok, err}
use packslip.Transaction.State.{
  Error, Fault, works, fails, late, stops, Disk, World, M, ◌>>◌, done, refuse_if, call, after_fault,
}

-- The outcome of a run that began with the faults `fs`: `Q` of the disk on success, `C` on
-- failure. Without faults it does not fail, and leaves none.
abbrev pub OutcomeOf :
    List Fault → (Disk → Type 0) → (Disk → Type 0) → Result Error (Unit {0}) → World → Type 0
OutcomeOf fs Q C (ok _) w = Q w.disk × (fs ≡ [] → w.faults ≡ [])
OutcomeOf fs Q C (err _) w = C w.disk × (fs ≢ [])

abbrev pub Outcome :
    List Fault → (Disk → Type 0) → (Disk → Type 0) → Result Error (Unit {0}) × World → Type 0
Outcome fs Q C (r, w) = OutcomeOf fs Q C r w

-- From `P`, the run ends in `Q`, or fails by a fault and leaves `C`.
pub record Triple (P : Disk → Type 0) (m : M (Unit {0})) (Q C : Disk → Type 0) : Type 0 where
  pub runs : (w : World) → P w.disk → Outcome w.faults Q C (m w)

pub done_rule : (P C : Disk → Type 0) → Triple P done P C
done_rule P C = record { runs = λ w p. (p, λ e. e) }

pub refuse_if_rule :
    (P C : Disk → Type 0) (b : Bool) (e : Error) → b ≡ false → Triple P (refuse_if b e) P C
refuse_if_rule P C true e h = cc
refuse_if_rule P C false e h = record { runs = λ w p. (p, λ e. e) }

after_fault-Outcome :
    (fs : List Fault) (f : Disk → Disk) (w : World) (Q C : Disk → Type 0)
    → C w.disk
    → C (f w.disk)
    → Q (f w.disk)
    → Outcome fs Q C (after_fault fs f w)
after_fault-Outcome [] f w Q C c c' q = (q, λ e. refl)
after_fault-Outcome (works ∷ fs) f w Q C c c' q = (q, λ e. cc)
after_fault-Outcome (fails ∷ fs) f w Q C c c' q = (c, λ e. cc)
after_fault-Outcome (late ∷ fs) f w Q C c c' q = (c', λ e. cc)
after_fault-Outcome (stops ∷ fs) f w Q C c c' q = (c, λ e. cc)

-- A call fails before its effect or after it.
pub call_rule :
    (P Q C : Disk → Type 0) (f : Disk → Disk)
    → ((d : Disk) → P d → C d × C (f d) × Q (f d))
    → Triple P (call f) Q C
unfolding call
call_rule P Q C f h = record {
  runs = λ w p. let (c, c', q) = h w.disk p in after_fault-Outcome w.faults f w Q C c c' q;
}

abbrev resume : M (Unit {0}) → Result Error (Unit {0}) → World → Result Error (Unit {0}) × World
resume k r w = elim r [ ok a ↦ k w | err e ↦ (err e, w) ]

later-Outcome :
    (fs gs : List Fault) (R C : Disk → Type 0) (r : Result Error (Unit {0})) (w : World)
    → (fs ≡ [] → gs ≡ [])
    → OutcomeOf gs R C r w
    → OutcomeOf fs R C r w
later-Outcome fs gs R C (ok a) w k o = (o.0, λ e. o.1 (k e))
later-Outcome fs gs R C (err a) w k o = (o.0, λ e. o.1 (k e))

resume-Outcome :
    (fs : List Fault) (Q R C : Disk → Type 0) (k : M (Unit {0}))
    → Triple Q k R C
    → (r : Result Error (Unit {0})) (w : World) → OutcomeOf fs Q C r w
    → Outcome fs R C (resume k r w)
resume-Outcome fs Q R C k t (ok a) w o = later-Outcome fs w.faults R C _ _ o.1 (t.runs w o.0)
resume-Outcome fs Q R C k t (err a) w o = o

pub then_rule :
    (P Q R C : Disk → Type 0) {m k : M (Unit {0})}
    → Triple P m Q C
    → Triple Q k R C
    → Triple P (m >> k) R C
then_rule P Q R C {m} {k} s t = record {
  runs = λ w p. resume-Outcome w.faults Q R C k t (m w).0 (m w).1 (s.runs w p);
}

-- A stronger precondition, weaker postconditions.
pub weaken :
    {P Q C : Disk → Type 0} (P' Q' C' : Disk → Type 0) {m : M (Unit {0})}
    → Triple P m Q C
    → ((d : Disk) → P' d → P d)
    → ((d : Disk) → Q d → Q' d)
    → ((d : Disk) → C d → C' d)
    → Triple P' m Q' C'
weaken {Q} {C} P' Q' C' {m} t p q c = record {
  runs = λ w h. go (m w).0 (m w).1 w.faults (t.runs w (p w.disk h));
}
  where
    go :
        (r : Result Error (Unit {0})) (w : World) (fs : List Fault)
        → OutcomeOf fs Q C r w
        → OutcomeOf fs Q' C' r w
    go (ok a) w fs o = (q w.disk o.0, o.1)
    go (err a) w fs o = (c w.disk o.0, o.1)

pub refused_then :
    (b : Bool) (e : Error) (k : M (Unit {0})) (w : World)
    → b ≡ true
    → (refuse_if b e >> k) w ≡ (err e, w)
refused_then true e k w h = refl
refused_then false e k w h = cc

pub passed_then :
    (b : Bool) (e : Error) (k : M (Unit {0})) (w : World) → b ≡ false → (refuse_if b e >> k) w ≡ k w
passed_then true e k w h = cc
passed_then false e k w h = refl
