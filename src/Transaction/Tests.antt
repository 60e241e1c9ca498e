-- ===== src/Transaction/Tests.antt =====
-- Runs of the transaction at concrete inputs.
use packslip.Base.{◌≡◌, refl, false, List, [], ◌∷◌, Option, none, some, ok, err, if◌then◌else◌, ◌↔◌}
use packslip.Base.Text.{codes, text_eq, starts_with}
use packslip.Extract.Names.{Components, pop}
use packslip.Extract.Entries.{path_eq, strip_path}
use packslip.Transaction.State.{
  conflict, Entry, link, file, directory, same, Operation, World, Disk, Fault, works, fails, stops,
  restart, moved, removed, call, set_pointer,
}
use packslip.Transaction.State.Paths.{apart}
use packslip.Transaction.Journal.{bad_paths, staged_of, restore, recover}
use packslip.Transaction.Run.{commit, reopen}
use packslip.Transaction.Stages.{AllSeparate}
use packslip.Transaction.Cleanup.{IsValid, Cleared}
use packslip.Transaction.Decision.{after_of}
use packslip.Transaction.Atomic.{IsReady}
use packslip.Transaction.History.{here, again, told, commit-Atomic, commit-Cleared}
use packslip.Transaction.Exports.{export_name, export_name_iff, starts_dot}
use packslip.Extract.Names.Safe.{IsSafe}
use packslip.Transaction.Foreign.{restore-foreign}

abbrev bin : Components
bin = codes "bin" ∷ []

abbrev tree : Components
tree = codes "tools" ∷ []

abbrev tool_path : Components
tool_path = codes "bin" ∷ codes "tool" ∷ []

abbrev tool_slot : Components
tool_slot = codes "bin" ∷ codes ".packslip-txn-1" ∷ []

abbrev current_path : Components
current_path = codes "tools" ∷ codes "current" ∷ []

abbrev current_slot : Components
current_slot = codes "tools" ∷ codes ".packslip-txn-2" ∷ []

abbrev old_link : Entry
old_link = link (codes "v1" ∷ [])

abbrev new_link : Entry
new_link = link (codes "v2" ∷ [])

abbrev slot_directory : Entry
slot_directory = directory none 1 2

-- `tools/current` is replaced, `bin/tool` is new.
abbrev replace_current : Operation
replace_current = record {
  destination = current_path;
  slot = current_slot;
  before = some old_link;
  after = some new_link;
}

abbrev add_tool : Operation
add_tool = record {
  destination = tool_path;
  slot = tool_slot;
  before = none;
  after = some new_link;
}

abbrev two_operations : List Operation
two_operations = replace_current ∷ add_tool ∷ []

abbrev scopes : List Components
scopes = tree ∷ bin ∷ []

abbrev prepared_entry : Components → Option Entry
prepared_entry q =
    if path_eq q current_path
    then some old_link
    else if path_eq q current_slot
    then some slot_directory
    else if path_eq q tool_slot
    then some slot_directory
    else if path_eq q (staged_of replace_current)
    then some new_link
    else if path_eq q (staged_of add_tool)
    then some new_link
    else none

abbrev prepared_disk : Disk
prepared_disk = record { entry = prepared_entry; journal = none; pointer = λ _. false }

abbrev start : List Fault → World
start faults = record { disk = prepared_disk; faults = faults }

two_operations-AllSeparate : AllSeparate two_operations
unfolding apart text_eq codes
two_operations-AllSeparate = record {
  each = (refl, (refl, tt));
  pairs = (
    (
      record {
        destinations = refl;
        destination_slot = refl;
        slot_destination = refl;
        slots = refl;
      },
      tt,
    ),
    (tt, tt),
  );
}

two_operations-IsValid : IsValid scopes two_operations
unfolding bad_paths pop path_eq text_eq codes starts_with
two_operations-IsValid = record {
  some_operation = refl;
  not_too_many = refl;
  paths_fine = (refl, (refl, tt));
}

start-IsReady : IsReady scopes two_operations two_operations-AllSeparate none prepared_disk
unfolding path_eq text_eq codes
start-IsReady = record {
  journal_is = refl;
  prepared = (
    record { at_destination = refl; at_backup = refl; at_staged = refl; at_slot = refl },
    (record { at_destination = refl; at_backup = refl; at_staged = refl; at_slot = refl }, tt),
  );
}

-- The process stops after the first operation is published, and the next session stops as well.
abbrev crash : List Fault
crash = works ∷ works ∷ works ∷ works ∷ works ∷ works ∷ stops ∷ []

abbrev crashed : World
crashed = (commit scopes two_operations (start crash)).1

abbrev crashed_again : World
crashed_again = (reopen (restart (works ∷ stops ∷ []) crashed)).1

commit-Atomic_example :
    Cleared
      (told (commit scopes two_operations (start crash)).0)
      two_operations
      (reopen (restart [] crashed_again)).1.disk
commit-Atomic_example =
    commit-Atomic scopes two_operations two_operations-AllSeparate two_operations-IsValid
      (start crash) crashed_again start-IsReady (again (works ∷ stops ∷ []) here)

commit-Cleared_example :
    ((commit scopes two_operations (start [])).0 ≡ ok tt)
    × Cleared after_of two_operations (commit scopes two_operations (start [])).1.disk
commit-Cleared_example =
    commit-Cleared scopes two_operations two_operations-AllSeparate two_operations-IsValid
      (start []) start-IsReady refl

-- `bin/tool` is a file of somebody else.
abbrev taken : World
taken = record {
  disk = record {
    entry = λ q. if path_eq q tool_path then some (file (codes "theirs")) else none;
    journal = none;
    pointer = λ _. false;
  };
  faults = [];
}

restore-foreign_example : restore add_tool taken ≡ (err conflict, taken)
unfolding path_eq text_eq codes same
restore-foreign_example = restore-foreign add_tool (file (codes "theirs")) taken refl refl refl

-- What `bin/tool` holds after a run.
abbrev tool_after : List Fault → Option Entry
tool_after faults = (commit scopes two_operations (start faults)).1.entry tool_path

-- A failed publication of `bin/tool` takes it back at once.
crash_leaves : tool_after (works ∷ works ∷ works ∷ works ∷ works ∷ works ∷ fails ∷ []) ≡ none
unfolding commit recover moved path_eq text_eq codes same pop starts_with call strip_path
    set_pointer removed
crash_leaves = refl

export_name_iff_example :
    (export_name (codes "tool") ≡ ok (codes "tool"))
    ↔ (IsSafe (codes "tool") × (starts_dot (codes "tool") ≡ false))
export_name_iff_example = export_name_iff (codes "tool")
