-- ===== src/Transaction/Journal.antt =====
-- `validate` and `recover` of src/install_fs.rs.
use packslip.Base.{
  Bool, true, false, not, ◌&&◌, ◌||◌, List, [], ◌∷◌, ◌++◌, Option, none, some, if◌then◌else◌, ◌==◌,
  ltb, length, any, reverse,
}
use packslip.Base.Text.{Text, text_eq, codes, starts_with}
use packslip.Extract.Names.{Components, pop}
use packslip.Extract.Entries.{path_eq}
use packslip.Transaction.State.{
  conflict, Entry, directory, same, is_some, Operation, Journal, M, ◌>>◌, done, refuse_if, rename,
  remove, write_journal, remove_journal, remove_pointer,
}

abbrev pub backup_of : Operation → Components
backup_of op = op.slot ++ (codes "backup" ∷ [])

abbrev pub staged_of : Operation → Components
staged_of op = op.slot ++ (codes "new" ∷ [])

-- `Path::file_name`
file_name : Components → Option Text
file_name [] = none
file_name (c ∷ []) = some c
file_name (c ∷ d ∷ p) = file_name (d ∷ p)

-- `slot.file_name().is_some_and(|s| s.starts_with(".packslip-txn-"))`
is_slot_name : Option Text → Bool
is_slot_name none = false
is_slot_name (some name) = starts_with name (codes ".packslip-txn-")

-- `destination.file_name().is_none_or(|s| s == POINTER || s == ".packslip.lock")`
is_reserved_name : Option Text → Bool
is_reserved_name none = true
is_reserved_name (some name) =
    text_eq name (codes ".packslip-recovery.json") || text_eq name (codes ".packslip.lock")

has_path : Components → List Components → Bool
has_path p paths = any (λ q. path_eq p q) paths

is_child_of : Components → Components → Bool
is_child_of parent path = elim (pop path) [ none ↦ false | some up ↦ path_eq up parent ]

-- The paths of one operation, with the destinations of the earlier ones.
unfoldable pub bad_paths : List Components → List Components → Operation → Bool
unfolding file_name is_slot_name is_reserved_name has_path is_child_of
bad_paths scopes seen op = elim (pop op.destination) [
  | none ↦ true
  | some parent ↦
      not (has_path parent scopes)
      || not (is_child_of parent op.slot)
      || not (is_slot_name (file_name op.slot))
      || has_path op.destination seen
      || is_reserved_name (file_name op.destination)
]

-- A slot is a directory, or gone.
abbrev pub is_slot : Option Entry → Bool
is_slot none = true
is_slot (some (directory _ _ _)) = true
is_slot (some _) = false

unfoldable pub validate_operations :
    List Components → List Components → List Operation → M (Unit {0})
unfolding bad_paths
validate_operations scopes seen [] = done
validate_operations scopes seen (op ∷ ops) = do
  refuse_if (bad_paths scopes seen op) conflict
  (λ w. refuse_if (not (is_slot (w.entry op.slot))) conflict w)
  validate_operations scopes (op.destination ∷ seen) ops

abbrev pub has_no_operation : List Operation → Bool
has_no_operation [] = true
has_no_operation (_ ∷ _) = false

unfoldable pub validate : Journal → M (Unit {0})
unfolding validate_operations
validate j = do
  refuse_if
      (not (j.schema == 1) || has_no_operation j.operations || ltb 10000 (length j.operations))
      conflict
  validate_operations j.scopes [] j.operations

-- One round of the rollback, on what stands at the destination, the backup and the staged place.
unfoldable pub restore_on :
    Operation
    → Option Entry
    → Option Entry
    → Option Entry
    → Option Entry
    → Option Entry
    → M (Unit {0})
restore_on op before after current (some saved) staged = do
  refuse_if (not (same (some saved) before)) conflict
  if is_some current
      then (do
        refuse_if (not (same current after) || is_some staged) conflict
        rename op.destination (staged_of op))
      else done
  rename (backup_of op) op.destination
restore_on op before after current none staged =
    if not (is_some before) && is_some current
    then (do
      refuse_if (not (same current after) || is_some staged) conflict
      rename op.destination (staged_of op))
    else refuse_if (not (same current before)) conflict

unfoldable pub restore : Operation → M (Unit {0})
unfolding restore_on
restore op w =
    restore_on op op.before op.after (w.entry op.destination) (w.entry (backup_of op))
      (w.entry (staged_of op)) w

unfoldable pub restore_all : List Operation → M (Unit {0})
unfolding restore
restore_all [] = done
restore_all (op ∷ ops) = do restore op; restore_all ops

unfoldable pub remove_pointers : List Components → M (Unit {0})
remove_pointers [] = done
remove_pointers (scope ∷ scopes) = do
  (λ w. if w.pointer scope then remove_pointer scope w else done w)
  remove_pointers scopes

unfoldable pub remove_slots : List Operation → M (Unit {0})
remove_slots [] = done
remove_slots (op ∷ ops) = do remove op.slot; remove_slots ops

unfoldable pub recover : Journal → M (Unit {0})
unfolding validate restore_all remove_pointers remove_slots
recover j = do
  validate j
  if j.active && not j.committed then restore_all (reverse j.operations) else done
  if not j.committed then write_journal (record j { committed = true }) else done
  remove_pointers j.scopes
  remove_slots j.operations
  remove_journal
