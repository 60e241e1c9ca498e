-- ===== src/Transaction/Cleanup.antt =====
-- The part of `recover` of src/install_fs.rs after the decision, and `validate` on a journal whose
-- paths are in order.

use packslip.Base.{
  ◌≡◌, refl, ap, ◌∙◌, ◌⊎◌, inl, inr, Bool, true, false, not, ◌||◌, List, [], ◌∷◌, Option, none,
  some, All, All_imp, ok, err, Bool-cases, arith, ltb, length, if◌then◌else◌, Option-cases,
}
use packslip.Extract.Names.{Components}
use packslip.Extract.Entries.{strip_path}
use packslip.Transaction.State.{
  Entry, Operation, Journal, Disk, World, M, Error, ◌>>◌, done, refuse_if, conflict, removed,
  remove_journal, remove_pointer, set_pointer,
}
use packslip.Transaction.State.Paths.{apart, apart_sym, removed_other}
use packslip.Transaction.State.Laws.{
  Outcome, Triple, done_rule, refuse_if_rule, call_rule, then_rule, weaken, refused_then,
  passed_then,
}
use packslip.Transaction.Journal.{
  is_slot, bad_paths, has_no_operation, validate_operations, validate, remove_pointers,
  remove_slots,
}
use packslip.Transaction.Stages.{AreSeparate, AllSeparate}
use packslip.Transaction.Moves.{drop}

-- Each destination holds what `pick` says.
abbrev pub Shows : (Operation → Option Entry) → List Operation → Disk → Type 0
Shows pick ops d = All (λ op. d.entry op.destination ≡ pick op) ops

abbrev pub SlotsFine : List Operation → Disk → Type 0
SlotsFine ops d = All (λ op. is_slot (d.entry op.slot) ≡ true) ops

-- The journal file is `j`, the slots are in order, and the destinations show `pick`.
pub record Decided (j : Journal) (pick : Operation → Option Entry) (ops : List Operation) (d : Disk)
    : Type 0 where
  pub journal_is : d.journal ≡ some j
  pub slots_fine : SlotsFine ops d
  pub shows : Shows pick ops d

pub record Cleared (pick : Operation → Option Entry) (ops : List Operation) (d : Disk)
    : Type 0 where
  pub journal_gone : d.journal ≡ none
  pub shows : Shows pick ops d

is_slot-removed :
    (path : Components) (look : Components → Option Entry) (q : Components)
    → is_slot (look q) ≡ true
    → is_slot (removed path look q) ≡ true
unfolding removed
is_slot-removed path look q h = elim (Option-cases (strip_path q path)) [
  | inl e ↦ rw (e, removed) h
  | inr (r, e) ↦ rw (e, removed) refl
]

pub drop-SlotsFine :
    (path : Components) (ops : List Operation) (d : Disk)
    → SlotsFine ops d
    → SlotsFine ops (drop path d)
drop-SlotsFine path ops d h = All_imp ops (λ op. is_slot-removed path d.entry op.slot) h

pub drop-Shows :
    (op : Operation) (pick : Operation → Option Entry) (ops : List Operation) (d : Disk)
    → All (λ o. apart op.slot o.destination ≡ true) ops
    → Shows pick ops d
    → Shows pick ops (drop op.slot d)
drop-Shows op pick [] d a h = tt
drop-Shows op pick (o ∷ ops) d a h =
    (removed_other op.slot d.entry o.destination a.0 ∙ h.0, drop-Shows op pick ops d a.1 h.1)

-- Every slot is apart from every destination.
abbrev pub SlotsApart : List Operation → List Operation → Type 0
SlotsApart ops others = All (λ op. All (λ o. apart op.slot o.destination ≡ true) others) ops

pub AllSeparate-SlotsApart : (ops : List Operation) → AllSeparate ops → SlotsApart ops ops
AllSeparate-SlotsApart [] s = tt
AllSeparate-SlotsApart (op ∷ rest) s = (
  (apart_sym op.slot op.destination ∙ s.each.0, All_imp rest (λ o t. t.slot_destination) s.pairs.0),
  column op rest rest s.pairs.0
      (AllSeparate-SlotsApart rest (record { each = s.each.1; pairs = s.pairs.1 })),
)
  where
    column :
        (op : Operation) (xs others : List Operation)
        → All (AreSeparate op) xs
        → SlotsApart xs others
        → SlotsApart xs (op ∷ others)
    column op [] others t h = tt
    column op (x ∷ xs) others t h =
        ((apart_sym x.slot op.destination ∙ t.0.destination_slot, h.0), column op xs others t.1 h.1)

pub remove_slots_rule :
    (P : Disk → Type 0) (ops : List Operation)
    → All (λ op. (d : Disk) → P d → P (drop op.slot d)) ops
    → Triple P (remove_slots ops) P P
unfolding remove_slots
remove_slots_rule P [] f = done_rule _ _
remove_slots_rule P (op ∷ ops) f =
    then_rule _ _ _ _ (call_rule _ _ _ (drop op.slot) (λ d h. (h, f.0 d h, f.0 d h)))
      (remove_slots_rule P ops f.1)

module _ (j : Journal) (pick : Operation → Option Entry) (ops : List Operation) where
  remove_pointers_rule :
      (scopes : List Components)
      → Triple
          (Decided j pick ops)
          (remove_pointers scopes)
          (Decided j pick ops)
          (Decided j pick ops)
  unfolding remove_pointers
  remove_pointers_rule [] = done_rule _ _
  remove_pointers_rule (scope ∷ scopes) =
      then_rule _ _ _ _ (record { runs = λ w h. one (w.pointer scope) w h })
        (remove_pointers_rule scopes)
    where
      one :
          (b : Bool) (w : World)
          → Decided j pick ops w.disk
          → Outcome w.faults
              (Decided j pick ops)
              (Decided j pick ops)
              (if b then remove_pointer scope w else done w)
      one true w h =
          (call_rule (Decided j pick ops) (Decided j pick ops) (Decided j pick ops)
              (λ d. record d { pointer = set_pointer scope false d.pointer })
              (λ d k.
                let k' : Decided j pick ops
                    (record d { pointer = set_pointer scope false d.pointer }) =
                  record {
                    journal_is = k.journal_is;
                    slots_fine = k.slots_fine;
                    shows = k.shows;
                  } in
                (k, k', k'))).runs
            w h
      one false w h = (h, λ e. e)

  remove_slots-Decided :
      (some_ops : List Operation)
      → SlotsApart some_ops ops
      → Triple
          (Decided j pick ops)
          (remove_slots some_ops)
          (Decided j pick ops)
          (Decided j pick ops)
  remove_slots-Decided some_ops a = remove_slots_rule (Decided j pick ops) some_ops (
      All_imp some_ops
        (λ op apart_all d h.
          let h' : Decided j pick ops (drop op.slot d) = record {
            journal_is = h.journal_is;
            slots_fine = drop-SlotsFine op.slot ops d h.slots_fine;
            shows = drop-Shows op pick ops d apart_all h.shows;
          } in
          h')
        a)

  -- After the decision only the cleanup is left, and it touches no destination.
  abbrev pub Cleaning : Disk → Type 0
  Cleaning d = Decided j pick ops d ⊎ Cleared pick ops d

  remove_journal_rule : Triple (Decided j pick ops) remove_journal (Cleared pick ops) Cleaning
  remove_journal_rule =
      call_rule _ _ _ (λ d. record d { journal = none })
        (λ d h.
          let h' : Cleared pick ops (record d { journal = none }) = record {
            journal_gone = refl;
            shows = h.shows;
          } in
          (inl h, inr h', h'))

  pub cleanup_rule :
      (scopes : List Components)
      → SlotsApart ops ops
      → Triple
          (Decided j pick ops)
          (remove_pointers scopes >> (remove_slots ops >> remove_journal))
          (Cleared pick ops)
          Cleaning
  cleanup_rule scopes a =
      then_rule _ _ _ _
        (weaken _ _ _ (remove_pointers_rule scopes) (λ d h. h) (λ d h. h) (λ d h. inl h))
        (then_rule _ _ _ _
          (weaken _ _ _ (remove_slots-Decided ops a) (λ d h. h) (λ d h. h) (λ d h. inl h))
          remove_journal_rule)

-- The part of `validate` that depends on the journal alone.
abbrev pub PathsFine : List Components → List Components → List Operation → Type 0
PathsFine scopes seen [] = Unit
PathsFine scopes seen (op ∷ ops) =
    (bad_paths scopes seen op ≡ false) × PathsFine scopes (op.destination ∷ seen) ops

pub record IsValid (scopes : List Components) (ops : List Operation) : Type 0 where
  pub some_operation : has_no_operation ops ≡ false
  pub not_too_many : ltb 10000 (length ops) ≡ false
  pub paths_fine : PathsFine scopes [] ops

validate_operations_rule :
    (scopes seen : List Components) (ops : List Operation) (P : Disk → Type 0)
    → ((d : Disk) → P d → SlotsFine ops d)
    → PathsFine scopes seen ops
    → Triple P (validate_operations scopes seen ops) P P
unfolding validate_operations
validate_operations_rule scopes seen [] P f p = done_rule _ _
validate_operations_rule scopes seen (op ∷ ops) P f p =
    then_rule _ _ _ _ (refuse_if_rule _ _ _ _ p.0) (
      then_rule _ _ _ _
        (record { runs = λ w h. (refuse_if_rule P P _ conflict (ap not (f w.disk h).0)).runs w h })
        (validate_operations_rule scopes _ ops P (λ d h. (f d h).1) p.1))

abbrev pub journal_of : List Components → List Operation → Bool → Bool → Journal
journal_of scopes ops active committed = record {
  schema = 1;
  committed = committed;
  active = active;
  scopes = scopes;
  operations = ops;
}

module _ (scopes : List Components) (ops : List Operation) (active committed : Bool) where
  pub validate_rule :
      (P : Disk → Type 0)
      → IsValid scopes ops
      → ((d : Disk) → P d → SlotsFine ops d)
      → Triple P (validate (journal_of scopes ops active committed)) P P
  unfolding validate
  validate_rule P v f =
      then_rule _ _ _ _ (refuse_if_rule _ _ _ _ (ground (arith, v.some_operation, v.not_too_many)))
        (validate_operations_rule scopes [] ops P f v.paths_fine)

-- `validate` changes nothing, and what it passes is valid.
validate_operations_cases :
    (scopes seen : List Components) (ops : List Operation) (w : World)
    → (PathsFine scopes seen ops × (validate_operations scopes seen ops w ≡ (ok tt, w)))
      ⊎ ((e : Error) × (validate_operations scopes seen ops w ≡ (err e, w)))
unfolding validate_operations
validate_operations_cases scopes seen [] w = inl (tt, refl)
validate_operations_cases scopes seen (op ∷ ops) w =
    let rest = validate_operations scopes (op.destination ∷ seen) ops in
    let check : M (Unit {0}) = λ v. refuse_if (not (is_slot (v.entry op.slot))) conflict v in
    elim (Bool-cases (bad_paths scopes seen op)) [
      | inl bad ↦ inr (conflict, refused_then _ conflict (check >> rest) w bad)
      | inr fine ↦
          let first = passed_then _ conflict (check >> rest) w fine in
          elim (Bool-cases (is_slot (w.entry op.slot))) [
            | inr taken ↦ inr (conflict, first ∙ refused_then _ conflict rest w (ap not taken))
            | inl slot ↦
                let second = passed_then _ conflict rest w (ap not slot) in
                elim (validate_operations_cases scopes (op.destination ∷ seen) ops w) [
                  | inl (p, e) ↦ inl ((fine, p), first ∙ second ∙ e)
                  | inr (x, e) ↦ inr (x, first ∙ second ∙ e)
                ]
          ]
    ]

pub validate_cases :
    (scopes : List Components) (ops : List Operation) (active committed : Bool) (w : World)
    → (IsValid scopes ops × (validate (journal_of scopes ops active committed) w ≡ (ok tt, w)))
      ⊎ ((e : Error) × (validate (journal_of scopes ops active committed) w ≡ (err e, w)))
unfolding validate
validate_cases scopes ops active committed w =
    let rest = validate_operations scopes [] ops in
    let head = has_no_operation ops || ltb 10000 (length ops) in
    elim (Bool-cases head) [
      | inl bad ↦ inr (conflict, refused_then head conflict rest w bad)
      | inr fine ↦
          let first = passed_then head conflict rest w fine in
          elim (validate_operations_cases scopes [] ops w) [
            | inl (p, e) ↦ inl (
              record { some_operation = ground arith; not_too_many = ground arith; paths_fine = p },
              first ∙ e,
            )
            | inr (x, e) ↦ inr (x, first ∙ e)
          ]
    ]
