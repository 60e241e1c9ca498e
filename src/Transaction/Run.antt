-- ===== src/Transaction/Run.antt =====
-- The end of `commit_inner` of src/install_fs.rs, from the prepared operations to the result, and
-- the recovery when a session opens.
use packslip.Base.{
  Bool, true, false, not, List, [], ◌∷◌, Option, none, some, Result, ok, err, if◌then◌else◌,
}
use packslip.Extract.Names.{Components}
use packslip.Transaction.State.{
  Error, conflict, Entry, same, is_some, Operation, Journal, World, M, ◌>>◌, done, fail, refuse_if,
  rename, write_journal, write_pointer,
}
use packslip.Transaction.Journal.{backup_of, staged_of, validate, recover, remove_slots}

unfoldable pub write_pointers : List Components → M (Unit {0})
write_pointers [] = done
write_pointers (scope ∷ scopes) = do write_pointer scope; write_pointers scopes

abbrev when : Bool → M (Unit {0}) → M (Unit {0})
when true m = m
when false m = done

-- The body of the loop over the operations, with what stands at the destination.
unfoldable pub publish_on : Operation → Option Entry → Option Entry → Option Entry → M (Unit {0})
publish_on op before after current = do
  refuse_if (not (same current before)) conflict
  when (is_some before) (rename op.destination (backup_of op))
  when (is_some after) (rename (staged_of op) op.destination)

unfoldable pub publish : Operation → M (Unit {0})
unfolding publish_on
publish op w = publish_on op op.before op.after (w.entry op.destination) w

unfoldable pub publish_all : List Operation → M (Unit {0})
unfolding publish
publish_all [] = done
publish_all (op ∷ ops) = do publish op; publish_all ops

-- The closure whose outcome is `result`.
unfoldable pub transact : Journal → M (Unit {0})
unfolding write_pointers publish_all
transact j = do
  write_pointers j.scopes
  write_journal (record j { active = true })
  publish_all j.operations
  write_journal (record j { active = true; committed = true })

-- What follows an error, on the journal that is on disk.
abbrev pub settle : Error → Option Journal → M (Unit {0})
settle e none = fail conflict
settle e (some persisted) =
    if persisted.committed
    then (λ w. let (_, w') = recover persisted w in (ok tt, w'))
    else (do recover persisted; fail e)

abbrev pub finish : Journal → Result Error (Unit {0}) × World → Result Error (Unit {0}) × World
finish j (ok _, w) =
    let (_, w') = recover (record j { active = true; committed = true }) w in (ok tt, w')
finish j (err e, w) = settle e w.journal w

-- The prepared slots are directories that are removed when they go out of scope; from the first
-- journal on they are kept.
abbrev pub drop_slots :
    List Operation → Result Error (Unit {0}) × World → Result Error (Unit {0}) × World
drop_slots ops (ok _, w) = (ok tt, w)
drop_slots ops (err e, w) = let (_, w') = remove_slots ops w in (err e, w')

abbrev pub first_journal : List Components → List Operation → Journal
first_journal scopes ops = record {
  schema = 1;
  committed = false;
  active = false;
  scopes = scopes;
  operations = ops;
}

unfoldable pub commit : List Components → List Operation → M (Unit {0})
unfolding transact
commit scopes ops w =
    let j = first_journal scopes ops in
    let (r, w') = drop_slots ops ((do validate j; write_journal j) w) in
    elim r [ err e ↦ (err e, w') | ok _ ↦ finish j (transact j w') ]

abbrev pub reopen_on : Option Journal → M (Unit {0})
reopen_on none = done
reopen_on (some j) = recover j

-- What opening a session does about the journal of its state directory.
unfoldable pub reopen : M (Unit {0})
reopen w = reopen_on w.journal w
