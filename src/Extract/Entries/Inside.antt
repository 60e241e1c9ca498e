-- ===== src/Extract/Entries/Inside.antt =====
-- The links of a listing under `validate` of src/install_extract.rs.
use mathlib.Core.Path.{subst}
use packslip.Base.{
  ◌^◌, ◌<◌, ◌≡◌, ◌≢◌, refl, sym, false, List, [], ◌∷◌, Option, All, ok, ◌>>=◌, refuse_if,
  Option-cases, bind-eq-ok, refuse_if-eq-ok, inl, inr,
}
use packslip.Base.Text.{Text}
use packslip.Extract.Names
use packslip.Extract.Names.{Components, is_nil, pop, link_path}
use packslip.Extract.Names.Safe.{IsSafe, path-IsSafe}
use packslip.Extract.Names.Links.{pop-IsSafe, link_path-IsSafe}
use packslip.Extract.Entries.{
  Kind, file, dir, symlink, hardlink, Entry, Limits, mapped, check_link, validate, parent,
}
use packslip.Extract.Entries.Prefix.{mapped-IsSafe}
use packslip.Extract.Entries.Validate.{LinkPasses, validate_iff}

-- A symbolic link's target names something below the root from the link's place in the archive
-- and from its place after stripping; a hard link's target is a safe path that does not map to
-- the root.
abbrev pub IsInside : Option Components → Components → Components → Kind → Type 0
IsInside strip from out file = Unit
IsInside strip from out dir = Unit
IsInside strip from out (symlink target) =
    (p q : Components) × (link_path (parent from) target ≡ ok p)
    × (link_path (parent out) target ≡ ok q)
    × (p ≢ [])
    × All IsSafe p
    × (q ≢ [])
    × All IsSafe q
IsInside strip from out (hardlink target) =
    (p : Components) × (Names.path target ≡ ok p)
    × (mapped p strip ≢ [])
    × All IsSafe (mapped p strip)

parent-IsSafe : (p : Components) → All IsSafe p → All IsSafe (parent p)
parent-IsSafe p s = elim (Option-cases (pop p)) [
  | inl e ↦ let up : parent p ≡ [] = rw (e, parent) refl in subst (All IsSafe) (sym up) tt
  | inr (r, e) ↦
      let up : parent p ≡ r = rw (e, parent) refl in subst (All IsSafe) (sym up) (pop-IsSafe p e s)
]

is_nil-ne : (p : Components) → is_nil p ≡ false → p ≢ []
is_nil-ne [] h e = cc
is_nil-ne (c ∷ p) h e = cc

check_link-IsInside :
    (strip : Option Components) (from out : Components) (kind : Kind)
    → All IsSafe from
    → All IsSafe out
    → check_link strip from out kind ≡ ok tt
    → IsInside strip from out kind
unfolding check_link
check_link-IsInside strip from out file sf so h = tt
check_link-IsInside strip from out dir sf so h = tt
check_link-IsInside strip from out (symlink target) sf so h =
    let (p, ep, later) =
      bind-eq-ok (link_path (parent from) target)
        (λ _. link_path (parent out) target >>= λ _. ok tt) h in
    let (q, eq, last) = bind-eq-ok (link_path (parent out) target) (λ _. ok tt) later in
    let (np, sp, dp) = link_path-IsSafe (parent from) target (parent-IsSafe from sf) ep in
    let (nq, sq, dq) = link_path-IsSafe (parent out) target (parent-IsSafe out so) eq in
    (p, q, ep, eq, np, sp, nq, sq)
check_link-IsInside strip from out (hardlink target) sf so h =
    let (p, ep, last) =
      bind-eq-ok (Names.path target) (λ to. refuse_if (is_nil (mapped to strip)) _) h in
    (p, ep, is_nil-ne _ (refuse_if-eq-ok _ _ last), mapped-IsSafe p strip (path-IsSafe target ep).1)

All-IsInside :
    (strip : Option Components) (es : List Entry)
    → All (λ e. All IsSafe e.path) es
    → All (LinkPasses strip) es
    → All (λ e. mapped e.path strip ≢ [] → IsInside strip e.path (mapped e.path strip) e.kind) es
All-IsInside strip [] s l = tt
All-IsInside strip (e ∷ es) s l = (
  (λ ne.
      check_link-IsInside strip e.path (mapped e.path strip) e.kind s.0
        (mapped-IsSafe e.path strip s.0) (l.0 (ne-is_nil _ ne))),
  All-IsInside strip es s.1 l.1,
)
  where
    ne-is_nil : (p : Components) → p ≢ [] → is_nil p ≡ false
    ne-is_nil [] ne = absurd (ne refl)
    ne-is_nil (c ∷ p) ne = refl

-- Where the byte limit is a `u64` and every entry's own path is safe: in a listing that passes,
-- every link that is not stripped away points below the extraction root.
pub validate-IsInside :
    (fold : Text → Text) (entries : List Entry) (limits : Limits) (strip : Option Components)
    → limits.bytes < 2 ^ 64
    → All (λ e. All IsSafe e.path) entries
    → validate fold entries limits strip ≡ ok tt
    → All
        (λ e. mapped e.path strip ≢ [] → IsInside strip e.path (mapped e.path strip) e.kind)
        entries
validate-IsInside fold entries limits strip b s h =
    All-IsInside strip entries s ((validate_iff fold entries limits strip b).0 h).links
