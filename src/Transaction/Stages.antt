-- ===== src/Transaction/Stages.antt =====
-- How far an operation has come, by what stands at its destination, its backup and its staged
-- place, and which operations leave one another alone.
use mathlib.Core.List.{append-nil}
use packslip.Base.{
  ◌≡◌, refl, sym, ap, ◌∙◌, ◌⊎◌, true, false, List, [], ◌∷◌, ◌++◌, Option, none, All, Pairwise,
}
use packslip.Base.Text.{Text, text_eq, text_eq_refl, codes}
use packslip.Extract.Names.{Components}
use packslip.Transaction.State.{Entry, Operation, Disk}
use packslip.Transaction.State.Paths.{apart, apart_sym, apart-append}
use packslip.Transaction.Journal.{backup_of, staged_of, is_slot}

-- `destination`, `backup` and `new` hold `x`, `y` and `z`, and the slot is a directory or gone.
pub record HoldsIn (entry : Components → Option Entry) (op : Operation) (x y z : Option Entry)
    : Type 0 where
  pub at_destination : entry op.destination ≡ x
  pub at_backup : entry (backup_of op) ≡ y
  pub at_staged : entry (staged_of op) ≡ z
  pub at_slot : is_slot (entry op.slot) ≡ true

abbrev pub Holds : Disk → Operation → Option Entry → Option Entry → Option Entry → Type 0
Holds d = HoldsIn d.entry

abbrev pub IsPrepared : Disk → Operation → Type 0
IsPrepared d op = Holds d op op.before none op.after

abbrev pub IsMoved : Disk → Operation → Type 0
IsMoved d op = Holds d op none op.before op.after

abbrev pub IsInstalled : Disk → Operation → Type 0
IsInstalled d op = Holds d op op.after op.before none

abbrev pub IsInFlight : Disk → Operation → Type 0
IsInFlight d op = IsPrepared d op ⊎ IsMoved d op ⊎ IsInstalled d op

abbrev pub IsSeparate : Operation → Type 0
IsSeparate op = apart op.destination op.slot ≡ true

-- Neither operation has its destination or slot at or below those of the other.
pub record AreSeparate (op other : Operation) : Type 0 where
  pub destinations : apart op.destination other.destination ≡ true
  pub destination_slot : apart op.destination other.slot ≡ true
  pub slot_destination : apart op.slot other.destination ≡ true
  pub slots : apart op.slot other.slot ≡ true

pub AreSeparate-sym : (op other : Operation) → AreSeparate op other → AreSeparate other op
AreSeparate-sym op other s = record {
  destinations = apart_sym other.destination op.destination ∙ s.destinations;
  destination_slot = apart_sym other.destination op.slot ∙ s.slot_destination;
  slot_destination = apart_sym other.slot op.destination ∙ s.destination_slot;
  slots = apart_sym other.slot op.slot ∙ s.slots;
}

pub record AllSeparate (ops : List Operation) : Type 0 where
  pub each : All IsSeparate ops
  pub pairs : Pairwise AreSeparate ops

-- The paths that an operation changes.
pub data Place (op : Operation) (p : Components) : Type 0 where
  at_destination : p ≡ op.destination → Place op p
  in_slot : (r : Components) → p ≡ op.slot ++ r → Place op p

apart_left : (p q r : Components) → apart p q ≡ true → apart (p ++ r) q ≡ true
apart_left p q r h = ap (λ s. apart (p ++ r) s) (sym (append-nil q)) ∙ apart-append p q r [] h

apart_right : (p q r : Components) → apart p q ≡ true → apart p (q ++ r) ≡ true
apart_right p q r h = ap (λ s. apart s (q ++ r)) (sym (append-nil p)) ∙ apart-append p q [] r h

pub Place-apart :
    (op other : Operation) {p q : Components}
    → AreSeparate op other
    → Place op p
    → Place other q
    → apart p q ≡ true
Place-apart op other s (at_destination e) (at_destination f) = rw (e, f) s.destinations
Place-apart op other s (at_destination e) (in_slot r f) =
    rw (e, f) (apart_right op.destination other.slot r s.destination_slot)
Place-apart op other s (in_slot r e) (at_destination f) =
    rw (e, f) (apart_left op.slot other.destination r s.slot_destination)
Place-apart op other s (in_slot r e) (in_slot t f) =
    rw (e, f) (apart-append op.slot other.slot r t s.slots)

-- The places of one operation against one another.
pub destination-apart-slot :
    (op : Operation) (r : Components) → IsSeparate op → apart op.destination (op.slot ++ r) ≡ true
destination-apart-slot op r s = apart_right op.destination op.slot r s

apart-concat :
    (p : Components) (c d : Text)
    → text_eq c d ≡ false
    → apart (p ++ (c ∷ [])) (p ++ (d ∷ [])) ≡ true
unfolding apart
apart-concat [] c d h = rw h
apart-concat (e ∷ p) c d h = rw (text_eq_refl e) (apart-concat p c d h)

pub backup-apart-staged : (op : Operation) → apart (backup_of op) (staged_of op) ≡ true
unfolding codes text_eq
backup-apart-staged op = apart-concat op.slot _ _ refl
