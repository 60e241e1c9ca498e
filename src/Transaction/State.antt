-- ===== src/Transaction/State.antt =====
-- The file system as the transaction sees it, and the monad of its calls.
use packslip.Base.{
  ℕ, ◌≡◌, refl, Bool, true, false, not, ◌&&◌, ◌||◌, List, [], ◌∷◌, ◌++◌, Option, none, some, Result,
  ok, err, if◌then◌else◌, ◌==◌,
}
use packslip.Base.Text.{Text, text_eq, codes}
use packslip.Extract.Names.{Components}
use packslip.Extract.Entries.{path_eq, strip_path}
pub mod Paths
pub mod Laws

pub data Error : Type 0 where
  io conflict : Error

-- `Entry` on Unix: what stands at a path, with the identity of a directory.
pub data Entry : Type 0 where
  link : Components → Entry
  file : Text → Entry
  directory : Option ℕ → ℕ → ℕ → Entry

abbrev created_eq : Option ℕ → Option ℕ → Bool
created_eq none none = true
created_eq (some a) (some b) = a == b
created_eq _ _ = false

unfoldable pub entry_eq : Entry → Entry → Bool
entry_eq (link a) (link b) = path_eq a b
entry_eq (file a) (file b) = text_eq a b
entry_eq (directory c d i) (directory c' d' i') = created_eq c c' && d == d' && i == i'
entry_eq _ _ = false

unfoldable pub same : Option Entry → Option Entry → Bool
unfolding entry_eq
same none none = true
same (some a) (some b) = entry_eq a b
same _ _ = false

abbrev pub is_directory : Entry → Bool
is_directory (directory _ _ _) = true
is_directory _ = false

abbrev pub is_some : Option Entry → Bool
is_some none = false
is_some (some _) = true

pub record Operation : Type 0 where
  pub destination : Components
  pub slot : Components
  pub before : Option Entry
  pub after : Option Entry

pub record Journal : Type 0 where
  pub schema : ℕ
  pub committed : Bool
  pub active : Bool
  pub scopes : List Components
  pub operations : List Operation

-- What becomes of a call that changes the file system.
pub data Fault : Type 0 where
  works : Fault
  fails : Fault
  late : Fault
  stops : Fault

-- What survives the process.
pub record Disk : Type 0 where
  pub entry : Components → Option Entry
  pub journal : Option Journal
  pub pointer : Components → Bool

pub record World : Type 0 where
  pub disk : Disk
  pub open disk use *
  pub faults : List Fault

abbrev pub M : Type 0 → Type 0
M A = World → Result Error A × World

infixl 5 ◌>>=◌ ◌>>◌
abbrev pub ◌>>=◌ : {A B : Type 0} → M A → (A → M B) → M B
◌>>=◌ m f w = let (r, w') = m w in elim r [ ok a ↦ f a w' | err e ↦ (err e, w') ]

abbrev pub ◌>>◌ : {B : Type 0} → M (Unit {0}) → M B → M B
m >> k = m >>= λ _. k

abbrev pub done : M (Unit {0})
done w = (ok tt, w)

abbrev pub fail : {A : Type 0} → Error → M A
fail e w = (err e, w)

abbrev pub refuse_if : Bool → Error → M (Unit {0})
refuse_if true e w = (err e, w)
refuse_if false e w = (ok tt, w)

-- One call with the effect `f`, at the next fault. Without a fault left, calls work; a process
-- that stopped stays stopped.
abbrev after_fault : List Fault → (Disk → Disk) → World → Result Error (Unit {0}) × World
after_fault [] f w = (ok tt, record { disk = f w.disk; faults = [] })
after_fault (works ∷ rest) f w = (ok tt, record { disk = f w.disk; faults = rest })
after_fault (fails ∷ rest) f w = (err io, record w { faults = rest })
after_fault (late ∷ rest) f w = (err io, record { disk = f w.disk; faults = rest })
after_fault (stops ∷ rest) f w = (err io, w)

unfoldable pub call : (Disk → Disk) → M (Unit {0})
call f w = after_fault w.faults f w

-- What a path holds once `from` and all below it has become `to`.
unfoldable pub moved :
    Components → Components → (Components → Option Entry) → Components → Option Entry
moved from to look q = elim (strip_path q to) [
  | some rest ↦ look (from ++ rest)
  | none ↦ elim (strip_path q from) [ some rest ↦ none | none ↦ look q ]
]

unfoldable pub removed : Components → (Components → Option Entry) → Components → Option Entry
removed path look q = elim (strip_path q path) [ some rest ↦ none | none ↦ look q ]

-- The source is there, and the target is free or is a file or a link that a file or a link
-- replaces. The system also lets a directory replace an empty one.
abbrev pub can_rename : Option Entry → Option Entry → Bool
can_rename none target = false
can_rename (some source) none = true
can_rename (some (directory _ _ _)) (some target) = false
can_rename (some (link _)) (some target) = not (is_directory target)
can_rename (some (file _)) (some target) = not (is_directory target)

abbrev pub rename : Components → Components → M (Unit {0})
rename from to w =
    (refuse_if (not (can_rename (w.entry from) (w.entry to))) io
        >> call (λ d. record d { entry = moved from to d.entry }))
      w

-- `remove`: of a path that is not there it does nothing.
abbrev pub remove : Components → M (Unit {0})
remove path = call (λ d. record d { entry = removed path d.entry })

-- `atomic(path, journal)`: the staged file replaces the journal as a whole.
abbrev pub write_journal : Journal → M (Unit {0})
write_journal j = call (λ d. record d { journal = some j })

abbrev pub remove_journal : M (Unit {0})
remove_journal = call (λ d. record d { journal = none })

unfoldable pub set_pointer : Components → Bool → (Components → Bool) → Components → Bool
set_pointer scope on pointer q = if path_eq q scope then on else pointer q

abbrev pub write_pointer : Components → M (Unit {0})
write_pointer scope = call (λ d. record d { pointer = set_pointer scope true d.pointer })

abbrev pub remove_pointer : Components → M (Unit {0})
remove_pointer scope = call (λ d. record d { pointer = set_pointer scope false d.pointer })

-- A new process over what the last one left.
abbrev pub restart : List Fault → World → World
restart faults w = record w { faults = faults }
