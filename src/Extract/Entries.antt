-- ===== src/Extract/Entries.antt =====
-- `Entry`, `prefix`, `mapped` and `validate` of src/install_extract.rs: the checks of a whole
-- listing before anything is written. Unicode lower case (`str::to_lowercase`) is the parameter
-- `fold`, applied to each component.
pub mod Table
pub mod Prefix
pub mod Validate
pub mod Inside
use packslip.Base.{
  ℕ, ◌+◌, ◌*◌, ◌^◌, ◌≤◌, Bool, true, false, not, ◌&&◌, ◌||◌, List, [], ◌∷◌, ◌++◌, map, Option, none,
  some, ltb, length, any, select, Result, ok, err, ◌>>=◌, ◌>>◌, refuse_if, if◌then◌else◌, ◌==◌,
}
use packslip.Base.Text.{Text, text_eq}
use packslip.Extract.Names
use packslip.Extract.Names.{
  Error, refused, limit, duplicate_path, hard_link_is_root, ancestor_not_dir, Components, is_nil,
  pop, link_path,
}

pub data Kind : Type 0 where
  file dir : Kind
  symlink : Text → Kind
  hardlink : Text → Kind

abbrev pub is_dir : Kind → Bool
is_dir dir = true
is_dir _ = false

pub record Entry : Type 0 where
  pub path : Components
  pub kind : Kind
  pub size : ℕ
  pub executable : Bool

pub record Limits : Type 0 where
  pub bytes : ℕ
  pub entries : ℕ

abbrev pub default_limits : Limits
default_limits = record { bytes = 10 * 1024 * 1024 * 1024; entries = 100000 }

unfoldable pub path_eq : Components → Components → Bool
path_eq [] [] = true
path_eq (c ∷ p) (d ∷ q) = text_eq c d && path_eq p q
path_eq _ _ = false

-- `Path::strip_prefix`
unfoldable pub strip_path : Components → Components → Option Components
strip_path p [] = some p
strip_path [] (d ∷ q) = none
strip_path (c ∷ p) (d ∷ q) = let rest = strip_path p q in if text_eq c d then rest else none

unfoldable pub mapped : Components → Option Components → Components
unfolding strip_path
mapped input none = input
mapped input (some strip) = elim (strip_path input strip) [ none ↦ input | some rest ↦ rest ]

abbrev starts_with_component : Components → Text → Bool
starts_with_component [] base = false
starts_with_component (c ∷ _) base = text_eq c base

-- The loop of `prefix`, with `child` so far.
unfoldable pub prefix_loop : Text → Bool → List Entry → Option Components
unfolding path_eq
prefix_loop base child [] = if child then some (base ∷ []) else none
prefix_loop base child (e ∷ es) =
    let is_base = path_eq e.path (base ∷ []) in
    let rest = prefix_loop base (child || not is_base) es in
    if not (starts_with_component e.path base)
    then none
    else if is_base && not (is_dir e.kind)
    then none
    else rest

abbrev prefix_at : Components → List Entry → Option Components
prefix_at [] entries = none
prefix_at (base ∷ _) entries = prefix_loop base false entries

unfoldable pub prefix : List Entry → Option Components
unfolding prefix_loop
prefix [] = none
prefix (e ∷ es) = prefix_at e.path (e ∷ es)

-- `path.parent().unwrap_or(Path::new(""))`
abbrev pub parent : Components → Components
parent p = elim (pop p) [ none ↦ [] | some up ↦ up ]

-- The map `seen`, newest first, and its lookup.
abbrev pub Seen : Type 0
Seen = List (Components × Kind)

unfoldable pub seen_at : Components → Seen → Option Kind
unfolding path_eq
seen_at k [] = none
seen_at k ((j, kind) ∷ seen) = let rest = seen_at k seen in if path_eq k j then some kind else rest

abbrev pub is_some : Option Kind → Bool
is_some none = false
is_some (some _) = true

abbrev u64_limit : ℕ
u64_limit = 2 ^ 64

-- `total.checked_add(entry.size)` and the test of the sum.
abbrev pub add_size : Limits → ℕ → ℕ → Result Error ℕ
add_size limits total size =
    if ltb (total + size) u64_limit
    then (if ltb limits.bytes (total + size) then err limit else ok (total + size))
    else err limit

-- The match on `entry.kind`, at the mapped path `out`.
unfoldable pub check_link :
    Option Components → Components → Components → Kind → Result Error (Unit {0})
check_link strip from out file = ok tt
check_link strip from out dir = ok tt
check_link strip from out (symlink target) = do
  before ← link_path (parent from) target
  after ← link_path (parent out) target
  ok tt
check_link strip from out (hardlink target) = do
  to ← Names.path target
  refuse_if (is_nil (mapped to strip)) (refused hard_link_is_root)

module _ (fold : Text → Text) (limits : Limits) (strip : Option Components) where
  -- The loop over the entries, with `seen` and `total` so far.
  unfoldable pub scan : Seen → ℕ → List Entry → Result Error Seen
  unfolding check_link seen_at
  scan seen total [] = ok seen
  scan seen total (e ∷ es) = do
    total' ← add_size limits total e.size
    let out = mapped e.path strip
    let key = map fold out
    elim (is_nil out) [
      | true ↦ scan seen total' es
      | false ↦ do
        refuse_if (is_some (seen_at key seen)) (refused duplicate_path)
        check_link strip e.path out e.kind
        scan ((key, e.kind) ∷ seen) total' es
    ]

-- `name.ancestors().skip(1)`, outermost first.
unfoldable pub ancestors : Components → List Components
ancestors [] = []
ancestors (c ∷ p) = [] ∷ map (◌∷◌ c) (ancestors p)

abbrev is_blocked : Option Kind → Bool
is_blocked none = false
is_blocked (some kind) = not (is_dir kind)

-- An entry that is not a directory stands above the name.
unfoldable pub has_bad_ancestor : Seen → Components → Bool
unfolding ancestors
has_bad_ancestor seen name = any (λ a. is_blocked (seen_at a seen)) (ancestors name)

unfoldable pub validate :
    (Text → Text) → List Entry → Limits → Option Components → Result Error (Unit {0})
unfolding scan has_bad_ancestor
validate fold entries limits strip = do
  refuse_if (ltb limits.entries (length entries)) limit
  seen ← scan fold limits strip [] 0 entries
  refuse_if (any (λ (name, _). has_bad_ancestor seen name) seen) (refused ancestor_not_dir)
