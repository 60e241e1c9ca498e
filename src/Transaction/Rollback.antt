-- ===== src/Transaction/Rollback.antt =====
-- The rollback in `recover` of src/install_fs.rs, by the stage of each operation.
use mathlib.Core.Path.{subst}
use packslip.Base.{
  ℕ, ◌≡◌, refl, sym, ◌⊎◌, inl, inr, true, false, not, List, [], ◌∷◌, Option, none, some, All, arith,
  ◌↔◌,
}
use packslip.Base.Text.{text_eq_iff}
use packslip.Extract.Names.{Components}
use packslip.Extract.Entries.Table.{path_eq_iff}
use packslip.Transaction.State.{
  Entry, link, file, directory, entry_eq, same, Operation, Disk, World, io, call, can_rename,
  rename,
}
use packslip.Transaction.State.Laws.{
  Outcome, Triple, done_rule, refuse_if_rule, call_rule, then_rule, passed_then, weaken,
}
use packslip.Transaction.Journal.{backup_of, staged_of, restore_on, restore, restore_all}
use packslip.Transaction.Stages.{
  Holds, IsSeparate, AreSeparate, AreSeparate-sym, AllSeparate, Place, at_destination, in_slot,
  IsPrepared, IsInFlight,
}
use packslip.Transaction.Moves.{
  move, move_to_staged, move_from_backup, Framed, Framed_pair, Framed-IsPrepared, Framed-IsInFlight,
  Framed_all,
}

created_iff : (a b : Option ℕ) → (entry_eq (directory a 0 0) (directory b 0 0) ≡ true) ↔ (a ≡ b)
unfolding entry_eq
created_iff none none = ground arith
created_iff (some a) (some b) = ground arith
created_iff none (some b) = ground arith
created_iff (some a) none = ground arith

entry_eq_iff : (a b : Entry) → (entry_eq a b ≡ true) ↔ (a ≡ b)
unfolding entry_eq
entry_eq_iff (link a) (link b) = ground (arith, path_eq_iff a b)
entry_eq_iff (file a) (file b) = ground (arith, text_eq_iff a b)
entry_eq_iff (directory none d i) (directory none e j) = ground arith
entry_eq_iff (directory (some c) d i) (directory (some b) e j) = ground arith
entry_eq_iff _ _ = ground arith

pub same_iff : (a b : Option Entry) → (same a b ≡ true) ↔ (a ≡ b)
unfolding same
same_iff none none = ground arith
same_iff (some a) (some b) = ground (arith, entry_eq_iff a b)
same_iff none (some b) = ground arith
same_iff (some a) none = ground arith

pub same_refl : (a : Option Entry) → not (same a a) ≡ false
same_refl a = rw ((same_iff a a).1 refl)

pub rename_rule :
    (P Q C : Disk → Type 0) (from to : Components)
    → ((d : Disk) → P d → can_rename (d.entry from) (d.entry to) ≡ true)
    → ((d : Disk) → P d → Q (move from to d))
    → ((d : Disk) → P d → C d)
    → ((d : Disk) → Q d → C d)
    → Triple P (rename from to) Q C
rename_rule P Q C from to free f p q =
    let moves =
      call_rule P Q C (move from to) (λ d h. (p d h, q (move from to d) (f d h), f d h)) in
    record {
      runs = λ w h.
          subst (Outcome w.faults Q C)
            (sym (
              passed_then (not (can_rename (w.entry from) (w.entry to))) io (call (move from to)) w
                (rw (free w.disk h) refl)))
            (moves.runs w h);
    }

module _ (op : Operation) (s : IsSeparate op) (F : Disk → Type 0) (fr : Framed op F) where
  abbrev At : Option Entry → Option Entry → Option Entry → Disk → Type 0
  At x y z d = Holds d op x y z × F d

  abbrev Between : Option Entry → Option Entry → Disk → Type 0
  Between before after d =
      (Holds d op before none after ⊎ Holds d op none before after ⊎ Holds d op after before none)
      × F d

  dest : Place op op.destination
  dest = at_destination refl

  to_staged :
      (x : Entry) (y : Option Entry) (C : Disk → Type 0)
      → ((d : Disk) → At (some x) y none d → C d)
      → ((d : Disk) → At none y (some x) d → C d)
      → Triple (At (some x) y none) (rename op.destination (staged_of op)) (At none y (some x)) C
  to_staged x y C p q =
      rename_rule _ _ C _ _ (λ d (h, f). rw (h.at_destination, h.at_staged) refl)
        (λ d (h, f). (move_to_staged op s d (some x) y none h, fr _ _ d dest (in_slot _ refl) f)) p
        q

  from_backup :
      (y : Entry) (z : Option Entry) (C : Disk → Type 0)
      → ((d : Disk) → At none (some y) z d → C d)
      → ((d : Disk) → At (some y) none z d → C d)
      → Triple (At none (some y) z) (rename (backup_of op) op.destination) (At (some y) none z) C
  from_backup y z C p q =
      rename_rule _ _ C _ _ (λ d (h, f). rw (h.at_backup, h.at_destination) refl)
        (λ d (h, f). (move_from_backup op s d none (some y) z h, fr _ _ d (in_slot _ refl) dest f))
        p q

  restore_prepared :
      (before after : Option Entry)
      → Triple
          (At before none after)
          (restore_on op before after before none after)
          (At before none after)
          (Between before after)
  unfolding restore_on
  restore_prepared none after = refuse_if_rule _ _ _ _ (same_refl none)
  restore_prepared (some b) after = refuse_if_rule _ _ _ _ (same_refl (some b))

  restore_moved :
      (before after : Option Entry)
      → Triple
          (At none before after)
          (restore_on op before after none before after)
          (At before none after)
          (Between before after)
  unfolding restore_on
  restore_moved none after = refuse_if_rule _ _ _ _ (same_refl none)
  restore_moved (some b) after = then_rule _ _ _ _ (refuse_if_rule _ _ _ _ (same_refl (some b))) (
      then_rule _ _ _ _ (done_rule _ _) (
        from_backup b after (Between (some b) after) (λ d (h, f). (inr (inl h), f))
          (λ d (h, f). (inl h, f))))

  restore_installed :
      (before after : Option Entry)
      → Triple
          (At after before none)
          (restore_on op before after after before none)
          (At before none after)
          (Between before after)
  unfolding restore_on
  restore_installed none none = refuse_if_rule _ _ _ _ (same_refl none)
  restore_installed none (some a) =
      then_rule _ _ _ _ (refuse_if_rule _ _ _ _ (rw (same_refl (some a)))) (
        to_staged a none (Between none (some a)) (λ d (h, f). (inr (inr h), f))
          (λ d (h, f). (inl h, f)))
  restore_installed (some b) none =
      then_rule _ _ _ _ (refuse_if_rule _ _ _ _ (same_refl (some b))) (
        then_rule _ _ _ _ (done_rule _ _) (
          from_backup b none (Between (some b) none) (λ d (h, f). (inr (inl h), f))
            (λ d (h, f). (inl h, f))))
  restore_installed (some b) (some a) =
      then_rule _ _ _ _ (refuse_if_rule _ _ _ _ (same_refl (some b))) (
        then_rule _ _ _ _
          (then_rule _ _ _ _ (refuse_if_rule _ _ _ _ (rw (same_refl (some a)))) (
            to_staged a (some b) (Between (some b) (some a)) (λ d (h, f). (inr (inr h), f))
              (λ d (h, f). (inr (inl h), f))))
          (from_backup b (some a) (Between (some b) (some a)) (λ d (h, f). (inr (inl h), f))
            (λ d (h, f). (inl h, f))))

  restore_at :
      (w : World) (x y z : Option Entry) (Q C : Disk → Type 0)
      → Holds w.disk op x y z
      → Outcome w.faults Q C (restore_on op op.before op.after x y z w)
      → Outcome w.faults Q C (restore op w)
  unfolding restore
  restore_at w x y z Q C h o =
      let e : restore op w ≡ restore_on op op.before op.after x y z w = λ i.
        restore_on op op.before op.after (h.at_destination i) (h.at_backup i) (h.at_staged i) w in
      subst (Outcome w.faults Q C) (sym e) o

  pub restore_rule :
      Triple
        (λ d. IsInFlight d op × F d)
        (restore op)
        (λ d. IsPrepared d op × F d)
        (λ d. IsInFlight d op × F d)
  restore_rule = record {
    runs = λ w (h, f). elim h [
      | inl p ↦ restore_at w _ _ _ _ _ p ((restore_prepared op.before op.after).runs w (p, f))
      | inr (inl m) ↦ restore_at w _ _ _ _ _ m ((restore_moved op.before op.after).runs w (m, f))
      | inr (inr i) ↦
          restore_at w _ _ _ _ _ i ((restore_installed op.before op.after).runs w (i, f))
    ];
  }

-- The operations need only be apart from one another: the order is of no account.
pub restore_all_rule :
    (ops : List Operation) (G : Disk → Type 0)
    → AllSeparate ops
    → All (λ op. Framed op G) ops
    → Triple
        (λ d. All (IsInFlight d) ops × G d)
        (restore_all ops)
        (λ d. All (IsPrepared d) ops × G d)
        (λ d. All (IsInFlight d) ops × G d)
unfolding restore_all
restore_all_rule [] G s fr = done_rule _ _
restore_all_rule (op ∷ ops) G s fr =
    let F : Disk → Type 0 = λ d. All (IsInFlight d) ops × G d in
    let first = restore_rule op s.each.0 F (
      Framed_pair op (λ d. All (IsInFlight d) ops) G
        (Framed_all op IsInFlight ops (λ o t. Framed-IsInFlight op o t) s.pairs.0) fr.0) in
    let G' : Disk → Type 0 = λ d. IsPrepared d op × G d in
    let rest =
      restore_all_rule ops G' (record { each = s.each.1; pairs = s.pairs.1 })
        (frames op ops s.pairs.0 fr.1) in
    then_rule _ (λ d. All (IsInFlight d) ops × G' d) _ _
      (weaken _ _ _ first (λ d ((a, bs), g). (a, (bs, g))) (λ d (p, (bs, g)). (bs, (p, g)))
        (λ d (a, (bs, g)). ((a, bs), g)))
      (weaken _ _ _ rest (λ d h. h) (λ d (ps, (p, g)). ((p, ps), g))
        (λ d (bs, (p, g)). ((inl p, bs), g)))
  where
    frames :
        (o : Operation) (os : List Operation)
        → All (AreSeparate o) os
        → All (λ q. Framed q G) os
        → All (λ q. Framed q (λ d. IsPrepared d o × G d)) os
    frames o [] t f = tt
    frames o (q ∷ os) t f = (
      Framed_pair q (λ d. IsPrepared d o) G (Framed-IsPrepared q o (AreSeparate-sym o q t.0)) f.0,
      frames o os t.1 f.1,
    )
