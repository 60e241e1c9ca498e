-- ===== src/Transaction/Publish.antt =====
-- The loop over the operations in `commit_inner` of src/install_fs.rs, by stages.
use mathlib.Core.Path.{subst}
use packslip.Base.{◌≡◌, refl, sym, ◌⊎◌, inl, inr, List, [], ◌∷◌, Option, none, some, All, All_imp}
use packslip.Transaction.State.{Entry, Operation, Disk, World, rename}
use packslip.Transaction.State.Laws.{Outcome, Triple, done_rule, refuse_if_rule, then_rule, weaken}
use packslip.Transaction.Journal.{backup_of, staged_of}
use packslip.Transaction.Run.{publish_on, publish, publish_all}
use packslip.Transaction.Stages.{
  Holds, IsSeparate, AreSeparate, AreSeparate-sym, AllSeparate, at_destination, in_slot, IsPrepared,
  IsInstalled, IsInFlight,
}
use packslip.Transaction.Moves.{
  move_to_backup, move_from_staged, Framed, Framed_pair, Framed-IsPrepared, Framed-IsInstalled,
  Framed_all,
}
use packslip.Transaction.Rollback.{same_refl, rename_rule}

module _ (op : Operation) (s : IsSeparate op) (F : Disk → Type 0) (fr : Framed op F) where
  abbrev At : Option Entry → Option Entry → Option Entry → Disk → Type 0
  At x y z d = Holds d op x y z × F d

  abbrev Between : Option Entry → Option Entry → Disk → Type 0
  Between before after d =
      (Holds d op before none after ⊎ Holds d op none before after ⊎ Holds d op after before none)
      × F d

  to_backup :
      (b : Entry) (after : Option Entry)
      → Triple
          (At (some b) none after)
          (rename op.destination (backup_of op))
          (At none (some b) after)
          (Between (some b) after)
  to_backup b after =
      rename_rule _ _ _ _ _ (λ d (h, f). rw (h.at_destination, h.at_backup) refl)
        (λ d (h, f). (
          move_to_backup op s d (some b) none after h,
          fr _ _ d (at_destination refl) (in_slot _ refl) f,
        ))
        (λ d (h, f). (inl h, f)) (λ d (h, f). (inr (inl h), f))

  from_staged :
      (before : Option Entry) (a : Entry)
      → Triple
          (At none before (some a))
          (rename (staged_of op) op.destination)
          (At (some a) before none)
          (Between before (some a))
  from_staged before a =
      rename_rule _ _ _ _ _ (λ d (h, f). rw (h.at_staged, h.at_destination) refl)
        (λ d (h, f). (
          move_from_staged op s d none before (some a) h,
          fr _ _ d (in_slot _ refl) (at_destination refl) f,
        ))
        (λ d (h, f). (inr (inl h), f)) (λ d (h, f). (inr (inr h), f))

  publish_on_rule :
      (before after : Option Entry)
      → Triple
          (At before none after)
          (publish_on op before after before)
          (At after before none)
          (Between before after)
  unfolding publish_on
  publish_on_rule none none =
      then_rule _ _ _ _ (refuse_if_rule _ _ _ _ (same_refl none))
        (then_rule _ _ _ _ (done_rule _ _) (done_rule _ _))
  publish_on_rule none (some a) =
      then_rule _ _ _ _ (refuse_if_rule _ _ _ _ (same_refl none))
        (then_rule _ _ _ _ (done_rule _ _) (from_staged none a))
  publish_on_rule (some b) none =
      then_rule _ _ _ _ (refuse_if_rule _ _ _ _ (same_refl (some b)))
        (then_rule _ _ _ _ (to_backup b none) (done_rule _ _))
  publish_on_rule (some b) (some a) =
      then_rule _ _ _ _ (refuse_if_rule _ _ _ _ (same_refl (some b)))
        (then_rule _ _ _ _ (to_backup b (some a)) (from_staged (some b) a))

  publish_at :
      (w : World) (x : Option Entry) (Q C : Disk → Type 0)
      → w.entry op.destination ≡ x
      → Outcome w.faults Q C (publish_on op op.before op.after x w)
      → Outcome w.faults Q C (publish op w)
  unfolding publish
  publish_at w x Q C h o =
      let e : publish op w ≡ publish_on op op.before op.after x w =
        λ i. publish_on op op.before op.after (h i) w in
      subst (Outcome w.faults Q C) (sym e) o

  pub publish_rule :
      Triple
        (λ d. IsPrepared d op × F d)
        (publish op)
        (λ d. IsInstalled d op × F d)
        (λ d. IsInFlight d op × F d)
  publish_rule = record {
    runs = λ w (p, f).
        publish_at w _ _ _ p.at_destination ((publish_on_rule op.before op.after).runs w (p, f));
  }

pub publish_all_rule :
    (ops : List Operation) (G : Disk → Type 0)
    → AllSeparate ops
    → All (λ op. Framed op G) ops
    → Triple
        (λ d. All (IsPrepared d) ops × G d)
        (publish_all ops)
        (λ d. All (IsInstalled d) ops × G d)
        (λ d. All (IsInFlight d) ops × G d)
unfolding publish_all
publish_all_rule [] G s fr = done_rule _ _
publish_all_rule (op ∷ ops) G s fr =
    let F : Disk → Type 0 = λ d. All (IsPrepared d) ops × G d in
    let first = publish_rule op s.each.0 F (
      Framed_pair op (λ d. All (IsPrepared d) ops) G
        (Framed_all op IsPrepared ops (λ o t. Framed-IsPrepared op o t) s.pairs.0) fr.0) in
    let G' : Disk → Type 0 = λ d. IsInstalled d op × G d in
    let rest =
      publish_all_rule ops G' (record { each = s.each.1; pairs = s.pairs.1 })
        (frames op ops s.pairs.0 fr.1) in
    then_rule _ (λ d. All (IsPrepared d) ops × G' d) _ _
      (weaken _ _ _ first (λ d ((p, ps), g). (p, (ps, g))) (λ d (i, (ps, g)). (ps, (i, g)))
        (λ d (a, (ps, g)). ((a, All_imp ops (λ o p. inl p) ps), g)))
      (weaken _ _ _ rest (λ d h. h) (λ d (is, (i, g)). ((i, is), g))
        (λ d (bs, (i, g)). ((inr (inr i), bs), g)))
  where
    frames :
        (o : Operation) (os : List Operation)
        → All (AreSeparate o) os
        → All (λ q. Framed q G) os
        → All (λ q. Framed q (λ d. IsInstalled d o × G d)) os
    frames o [] t f = tt
    frames o (q ∷ os) t f = (
      Framed_pair q (λ d. IsInstalled d o) G (Framed-IsInstalled q o (AreSeparate-sym o q t.0)) f.0,
      frames o os t.1 f.1,
    )
