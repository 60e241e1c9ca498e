-- ===== src/Transaction/Moves.antt =====
-- The four renames of the transaction of src/install_fs.rs, by the stages of the operations.
use packslip.Base.{◌≡◌, refl, sym, ap, ◌∙◌, inl, inr, true, List, [], ◌∷◌, Option, none, All}
use packslip.Extract.Names.{Components}
use packslip.Extract.Entries.{strip_path}
use packslip.Transaction.State.{Entry, Operation, Disk, moved, removed}
use packslip.Transaction.State.Paths.{
  apart, apart_sym, strip_path-apart, strip_path_shorter, moved_to, moved_from, moved_other,
}
use packslip.Transaction.Journal.{backup_of, staged_of, is_slot}
use packslip.Transaction.Stages.{
  Holds, IsSeparate, AreSeparate, Place, at_destination, in_slot, Place-apart,
  destination-apart-slot, backup-apart-staged, IsInFlight, IsPrepared, IsInstalled,
}
use mathlib.Core.List.{append-nil}

abbrev pub move : Components → Components → Disk → Disk
move from to d = record d { entry = moved from to d.entry }

abbrev pub drop : Components → Disk → Disk
drop path d = record d { entry = removed path d.entry }

parted : (p q : Components) → apart p q ≡ true → strip_path p q ≡ none
parted p q h = strip_path-apart q p (apart_sym q p ∙ h)

module _ (op : Operation) (s : IsSeparate op) where
  dest_backup : apart op.destination (backup_of op) ≡ true
  dest_backup = destination-apart-slot op _ s

  dest_staged : apart op.destination (staged_of op) ≡ true
  dest_staged = destination-apart-slot op _ s

  swapped : (p q : Components) → apart p q ≡ true → apart q p ≡ true
  swapped p q h = apart_sym q p ∙ h

  pub move_to_staged :
      (d : Disk) (x y z : Option Entry)
      → Holds d op x y z
      → Holds (move op.destination (staged_of op) d) op none y x
  move_to_staged d x y z h =
      let b : apart (backup_of op) (staged_of op) ≡ true = backup-apart-staged op in
      record {
        at_destination = moved_from op.destination (staged_of op) d.entry dest_staged;
        at_backup =
            moved_other op.destination (staged_of op) d.entry (backup_of op)
              (parted _ _ (swapped _ _ dest_backup)) (parted _ _ b)
            ∙ h.at_backup;
        at_staged = moved_to op.destination (staged_of op) d.entry ∙ h.at_destination;
        at_slot =
            ap is_slot (
              moved_other op.destination (staged_of op) d.entry op.slot (parted _ _ (swapped _ _ s))
                (strip_path_shorter op.slot _))
            ∙ h.at_slot;
      }

  pub move_to_backup :
      (d : Disk) (x y z : Option Entry)
      → Holds d op x y z
      → Holds (move op.destination (backup_of op) d) op none x z
  move_to_backup d x y z h =
      let b : apart (backup_of op) (staged_of op) ≡ true = backup-apart-staged op in
      record {
        at_destination = moved_from op.destination (backup_of op) d.entry dest_backup;
        at_backup = moved_to op.destination (backup_of op) d.entry ∙ h.at_destination;
        at_staged =
            moved_other op.destination (backup_of op) d.entry (staged_of op)
              (parted _ _ (swapped _ _ dest_staged)) (parted _ _ (swapped _ _ b))
            ∙ h.at_staged;
        at_slot =
            ap is_slot (
              moved_other op.destination (backup_of op) d.entry op.slot (parted _ _ (swapped _ _ s))
                (strip_path_shorter op.slot _))
            ∙ h.at_slot;
      }

  pub move_from_backup :
      (d : Disk) (x y z : Option Entry)
      → Holds d op x y z
      → Holds (move (backup_of op) op.destination d) op y none z
  move_from_backup d x y z h =
      let b : apart (backup_of op) (staged_of op) ≡ true = backup-apart-staged op in
      record {
        at_destination = moved_to (backup_of op) op.destination d.entry ∙ h.at_backup;
        at_backup = moved_from (backup_of op) op.destination d.entry (swapped _ _ dest_backup);
        at_staged =
            moved_other (backup_of op) op.destination d.entry (staged_of op)
              (parted _ _ (swapped _ _ b)) (parted _ _ (swapped _ _ dest_staged))
            ∙ h.at_staged;
        at_slot =
            ap is_slot (
              moved_other (backup_of op) op.destination d.entry op.slot
                (strip_path_shorter op.slot _) (parted _ _ (swapped _ _ s)))
            ∙ h.at_slot;
      }

  pub move_from_staged :
      (d : Disk) (x y z : Option Entry)
      → Holds d op x y z
      → Holds (move (staged_of op) op.destination d) op z y none
  move_from_staged d x y z h =
      let b : apart (backup_of op) (staged_of op) ≡ true = backup-apart-staged op in
      record {
        at_destination = moved_to (staged_of op) op.destination d.entry ∙ h.at_staged;
        at_backup =
            moved_other (staged_of op) op.destination d.entry (backup_of op) (parted _ _ b)
              (parted _ _ (swapped _ _ dest_backup))
            ∙ h.at_backup;
        at_staged = moved_from (staged_of op) op.destination d.entry (swapped _ _ dest_staged);
        at_slot =
            ap is_slot (
              moved_other (staged_of op) op.destination d.entry op.slot
                (strip_path_shorter op.slot _) (parted _ _ (swapped _ _ s)))
            ∙ h.at_slot;
      }

-- A predicate that no rename between the places of the operation can change.
abbrev pub Framed : Operation → (Disk → Type 0) → Type 0
Framed op F =
    (from to : Components) (d : Disk) → Place op from → Place op to → F d → F (move from to d)

pub Framed_pair :
    (op : Operation) (F G : Disk → Type 0) → Framed op F → Framed op G → Framed op (λ d. F d × G d)
Framed_pair op F G f g from to d a b (x, y) = (f from to d a b x, g from to d a b y)

-- An equal entry at each place of an operation leaves its stage.
Holds-agree :
    (d d' : Disk) (op : Operation) (x y z : Option Entry)
    → ((q : Components) → Place op q → d'.entry q ≡ d.entry q)
    → Holds d op x y z
    → Holds d' op x y z
Holds-agree d d' op x y z same h = record {
  at_destination = same op.destination (at_destination refl) ∙ h.at_destination;
  at_backup = same (backup_of op) (in_slot _ refl) ∙ h.at_backup;
  at_staged = same (staged_of op) (in_slot _ refl) ∙ h.at_staged;
  at_slot = ap is_slot (same op.slot (in_slot [] (sym (append-nil op.slot)))) ∙ h.at_slot;
}

pub move_agree :
    (op other : Operation) (from to : Components) (d : Disk)
    → AreSeparate op other
    → Place op from
    → Place op to
    → (q : Components) → Place other q
    → (move from to d).entry q ≡ d.entry q
move_agree op other from to d s a b q c =
    moved_other from to d.entry q (strip_path-apart from q (Place-apart op other s a c))
      (strip_path-apart to q (Place-apart op other s b c))

module _ (op other : Operation) (s : AreSeparate op other) where
  pub Framed-IsPrepared : Framed op (λ d. IsPrepared d other)
  Framed-IsPrepared from to d a b h =
      Holds-agree d (move from to d) other _ _ _ (move_agree op other from to d s a b) h

  pub Framed-IsInstalled : Framed op (λ d. IsInstalled d other)
  Framed-IsInstalled from to d a b h =
      Holds-agree d (move from to d) other _ _ _ (move_agree op other from to d s a b) h

  pub Framed-IsInFlight : Framed op (λ d. IsInFlight d other)
  Framed-IsInFlight from to d a b h =
      let keep = λ (x y z : Option Entry) (k : Holds d other x y z).
        Holds-agree d (move from to d) other x y z (move_agree op other from to d s a b) k in
      elim h [
        | inl p ↦ inl (keep _ _ _ p)
        | inr (inl m) ↦ inr (inl (keep _ _ _ m))
        | inr (inr i) ↦ inr (inr (keep _ _ _ i))
      ]

pub Framed_all :
    (op : Operation) (P : Disk → Operation → Type 0) (ops : List Operation)
    → ((other : Operation) → AreSeparate op other → Framed op (λ d. P d other))
    → All (AreSeparate op) ops
    → Framed op (λ d. All (P d) ops)
Framed_all op P [] f s from to d a b h = tt
Framed_all op P (o ∷ ops) f s from to d a b h =
    (f o s.0 from to d a b h.0, Framed_all op P ops f s.1 from to d a b h.1)
