-- ===== src/Extract/Entries/Table.antt =====
-- The paths that a listing gives after stripping, as `validate` gathers them, and its lookup.
use packslip.Base.{
  ◌≡◌, ◌≢◌, ◌↔◌, refl, sym, ap, ◌∙◌, Bool, true, false, List, [], ◌∷◌, ◌++◌, map, Option, none,
  some, any, if◌then◌else◌, Bool-cases, arith, inl, inr,
}
use packslip.Base.Text.{Text, text_eq_iff}
use packslip.Extract.Names.{Components, is_nil}
use packslip.Extract.Entries.{
  Kind, Entry, path_eq, mapped, Seen, seen_at, ancestors, has_bad_ancestor, dir, is_blocked,
}

pub path_eq_iff : (p q : Components) → (path_eq p q ≡ true) ↔ (p ≡ q)
unfolding path_eq
path_eq_iff [] [] = ground arith
path_eq_iff (c ∷ p) (d ∷ q) = ground (arith, text_eq_iff c d, path_eq_iff p q)
path_eq_iff [] (d ∷ q) = ground arith
path_eq_iff (c ∷ p) [] = ground arith

abbrev pub table : (Text → Text) → Option Components → Seen → List Entry → Seen
table fold strip seen [] = seen
table fold strip seen (e ∷ es) =
    let out = mapped e.path strip in
    table fold strip (if is_nil out then seen else (map fold out, e.kind) ∷ seen) es

-- No path is listed twice.
abbrev pub Distinct : Seen → Type 0
Distinct [] = Unit
Distinct ((k, _) ∷ seen) = (seen_at k seen ≡ none) × Distinct seen

pub table-Distinct :
    (fold : Text → Text) (strip : Option Components) (es : List Entry) (seen : Seen)
    → Distinct (table fold strip seen es)
    → Distinct seen
table-Distinct fold strip [] seen d = d
table-Distinct fold strip (e ∷ es) seen d =
    let here = table-Distinct fold strip es _ d in
    elim (Bool-cases (is_nil (mapped e.path strip))) [
      | inl skipped ↦ rw skipped at here
      | inr kept ↦ (rw kept at here).1
    ]

-- Every directory above a listed path that is itself listed is listed as a directory.
abbrev pub IsNested : Seen → Type 0
IsNested seen =
    (above : Components) (c : Text) (below : Components) (kind : Kind)
    → seen_at (above ++ (c ∷ below)) seen ≢ none
    → seen_at above seen ≡ some kind
    → kind ≡ dir

any-map :
    {A B : Type 0} (f : B → Bool) (g : A → B) (xs : List A)
    → any f (map g xs) ≡ any (λ x. f (g x)) xs
any-map f g [] = refl
any-map f g (x ∷ xs) = ground (arith, any-map f g xs)

-- A test fails on all proper prefixes of a path exactly when it fails on each.
any-ancestors :
    (f : Components → Bool) (above : Components) (c : Text) (below : Components)
    → any f (ancestors (above ++ (c ∷ below))) ≡ false
    → f above ≡ false
unfolding ancestors
any-ancestors f [] c below h = ground arith
any-ancestors f (a ∷ above) c below h =
    any-ancestors (λ p. f (a ∷ p)) above c below
      (sym (any-map f (◌∷◌ a) (ancestors (above ++ (c ∷ below)))) ∙ ground arith)

some-ancestors :
    (f : Components → Bool) (p : Components)
    → any f (ancestors p) ≡ true
    → (above : Components) × (c : Text) × (below : Components) × (p ≡ above ++ (c ∷ below))
      × (f above ≡ true)
unfolding ancestors
some-ancestors f [] h = cc
some-ancestors f (c ∷ p) h = elim (Bool-cases (f [])) [
  | inl here ↦ ([], c, p, refl, here)
  | inr later ↦
      let (above, d, below, e, t) =
        some-ancestors (λ q. f (c ∷ q)) p (sym (any-map f (◌∷◌ c) (ancestors p)) ∙ ground arith) in
      (c ∷ above, d, below, ap (◌∷◌ c) e, t)
]

any-seen_at :
    (f : Components → Bool) (k : Components) (seen : Seen)
    → any (λ (name, _). f name) seen ≡ false
    → seen_at k seen ≢ none
    → f k ≡ false
unfolding seen_at
any-seen_at f k [] h ne = absurd (ne refl)
any-seen_at f k ((j, kind) ∷ seen) h ne = elim (Bool-cases (path_eq k j)) [
  | inl same ↦ ground (arith, path_eq_iff k j)
  | inr other ↦ any-seen_at f k seen (ground arith) (rw other at ne)
]

seen_at-ne : (k : Components) (kind : Kind) (seen : Seen) → seen_at k ((k, kind) ∷ seen) ≢ none
unfolding seen_at
seen_at-ne k kind seen h = cc (rw ((path_eq_iff k k).1 refl) at h)

some-seen_at :
    (f : Components → Bool) (seen : Seen)
    → any (λ (name, _). f name) seen ≡ true
    → (k : Components) × (seen_at k seen ≢ none) × (f k ≡ true)
unfolding seen_at
some-seen_at f [] h = cc
some-seen_at f ((j, kind) ∷ seen) h = elim (Bool-cases (f j)) [
  | inl here ↦ (j, seen_at-ne j kind seen, here)
  | inr later ↦ let (k, ne, t) = some-seen_at f seen (ground arith) in (k, ground arith, t)
]

is_blocked_dir : (o : Option Kind) (kind : Kind) → is_blocked o ≡ false → o ≡ some kind → kind ≡ dir
is_blocked_dir none kind h e = cc
is_blocked_dir (some k) kind h e = ground arith

pub IsNested-of :
    (seen : Seen) → any (λ (name, _). has_bad_ancestor seen name) seen ≡ false → IsNested seen
unfolding has_bad_ancestor
IsNested-of seen h above c below kind listed at =
    let clear = any-seen_at (has_bad_ancestor seen) (above ++ (c ∷ below)) seen h listed in
    is_blocked_dir _ kind (any-ancestors (λ a. is_blocked (seen_at a seen)) above c below clear) at

blocked_not_dir :
    (o : Option Kind) → is_blocked o ≡ true → (kind : Kind) × (o ≡ some kind) × (kind ≢ dir)
blocked_not_dir none h = cc
blocked_not_dir (some kind) h = (kind, refl, λ e. cc (rw e at h))

pub IsNested-none :
    (seen : Seen) → IsNested seen → any (λ (name, _). has_bad_ancestor seen name) seen ≡ false
unfolding has_bad_ancestor
IsNested-none seen nested = elim (Bool-cases (any (λ (name, _). has_bad_ancestor seen name) seen)) [
  | inl bad ↦
      let (k, ne, t) = some-seen_at (has_bad_ancestor seen) seen bad in
      let (above, c, below, e, blocked) = some-ancestors (λ a. is_blocked (seen_at a seen)) k t in
      let (kind, at, other) = blocked_not_dir _ blocked in
      absurd (other (nested above c below kind (rw e at ne) at))
  | inr fine ↦ fine
]
