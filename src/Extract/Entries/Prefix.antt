-- ===== src/Extract/Entries/Prefix.antt =====
-- `prefix` and `mapped` of src/install_extract.rs: the directory that holds a whole archive.
use packslip.Base.{
  ◌≡◌, ◌≢◌, ◌↔◌, refl, sym, ap, ◌∙◌, Bool, true, false, List, [], ◌∷◌, ◌++◌, Option, none, some,
  All, Option-cases, arith, inl, inr, ◌⊎◌,
}
use mathlib.Core.Path.{subst}
use packslip.Base.Text.{Text, text_eq_iff, text_eq_refl}
use packslip.Extract.Names.{Components}
use packslip.Extract.Names.Safe.{IsSafe}
use packslip.Extract.Entries.{
  Kind, file, dir, symlink, hardlink, is_dir, Entry, strip_path, mapped, prefix, prefix_at,
  prefix_loop,
}
use packslip.Extract.Entries.Table.{path_eq_iff}

pub strip_path-append : (p r : Components) → strip_path (p ++ r) p ≡ some r
unfolding strip_path
strip_path-append [] r = refl
strip_path-append (c ∷ p) r = ground (arith, text_eq_iff c c, strip_path-append p r)

pub strip_path-eq-some : (q p : Components) {r : Components} → strip_path q p ≡ some r → q ≡ p ++ r
unfolding strip_path
strip_path-eq-some q [] h = ground arith
strip_path-eq-some [] (d ∷ p) h = cc
strip_path-eq-some (c ∷ q) (d ∷ p) {r} h =
    ground (arith, text_eq_iff c d, strip_path-eq-some q p {r = r})

All-append_right : (P : Text → Type 0) (xs ys : Components) → All P (xs ++ ys) → All P ys
All-append_right P [] ys h = h
All-append_right P (x ∷ xs) ys h = All-append_right P xs ys h.1

pub mapped-IsSafe :
    (p : Components) (strip : Option Components) → All IsSafe p → All IsSafe (mapped p strip)
unfolding mapped
mapped-IsSafe p none h = h
mapped-IsSafe p (some s) h = elim (Option-cases (strip_path p s)) [
  | inl e ↦ subst (All IsSafe) (sym (rw (e, mapped) refl)) h
  | inr (r, e) ↦
      let m : mapped p (some s) ≡ r = rw (e, mapped) refl in
      subst (All IsSafe) (sym m)
        (All-append_right IsSafe s r (subst (All IsSafe) (strip_path-eq-some p s e) h))
]

-- The entry lies in the directory `base`, or is that directory.
abbrev pub IsUnder : Text → Entry → Type 0
IsUnder base e = (rest : Components) × (e.path ≡ base ∷ rest) × (rest ≡ [] → e.kind ≡ dir)

-- Some entry is not the directory itself.
abbrev pub HasChild : Text → List Entry → Type 0
HasChild base [] = ⊥
HasChild base (e ∷ es) = (e.path ≢ base ∷ []) ⊎ HasChild base es

is_dir_iff : (k : Kind) → (is_dir k ≡ true) ↔ (k ≡ dir)
is_dir_iff dir = ground arith
is_dir_iff file = ground arith
is_dir_iff (symlink t) = ground arith
is_dir_iff (hardlink t) = ground arith

-- One round of the loop, by whether the entry is the directory itself.
prefix_loop_base :
    (base : Text) (child : Bool) (e : Entry) (es : List Entry)
    → e.path ≡ base ∷ []
    → e.kind ≡ dir
    → prefix_loop base child (e ∷ es) ≡ prefix_loop base child es
unfolding prefix_loop
prefix_loop_base base true e es p k = rw (p, k, text_eq_refl base) refl
prefix_loop_base base false e es p k = rw (p, k, text_eq_refl base) refl

prefix_loop_child :
    (base : Text) (child : Bool) (e : Entry) (es : List Entry) (c : Text) (rest : Components)
    → e.path ≡ base ∷ c ∷ rest
    → prefix_loop base child (e ∷ es) ≡ prefix_loop base true es
unfolding prefix_loop
prefix_loop_child base true e es c rest p = rw (p, text_eq_refl base) refl
prefix_loop_child base false e es c rest p = rw (p, text_eq_refl base) refl

prefix_loop-IsUnder :
    (base : Text) (child : Bool) (e : Entry) (es : List Entry) {b : Components}
    → prefix_loop base child (e ∷ es) ≡ some b
    → IsUnder base e
unfolding prefix_loop
prefix_loop-IsUnder base child e es {b} h = go e.path refl
  where
    go : (p : Components) → e.path ≡ p → IsUnder base e
    go [] q = cc (rw (q, prefix_loop) at h)
    go (c ∷ rest) q = (
      rest,
      ground (arith, text_eq_iff c base),
      λ z. ground (arith, path_eq_iff e.path (base ∷ []), is_dir_iff e.kind, text_eq_iff c base),
    )

abbrev Sound : Text → Bool → List Entry → Components → Type 0
Sound base child es b =
    All (IsUnder base) es × ((child ≡ true) ⊎ HasChild base es) × (b ≡ base ∷ [])

prefix_loop-Sound :
    (base : Text) (es : List Entry) (child : Bool) {b : Components}
    → prefix_loop base child es ≡ some b
    → Sound base child es b
prefix_loop-Sound base [] child h = unfold prefix_loop in (tt, ground arith, ground arith)
prefix_loop-Sound base (e ∷ es) child {b} h =
    let (rest, p, k) = prefix_loop-IsUnder base child e es h in
    go rest p k (λ c. prefix_loop-Sound base es c)
  where
    go :
        (rest : Components)
        → e.path ≡ base ∷ rest
        → (rest ≡ [] → e.kind ≡ dir)
        → ((c : Bool) → prefix_loop base c es ≡ some b → Sound base c es b)
        → Sound base child (e ∷ es) b
    go [] p k rec =
        let (u, v, w) = rec child (sym (prefix_loop_base base child e es p (k refl)) ∙ h) in
        ((([], p, k), u), elim v [ inl t ↦ inl t | inr t ↦ inr (inr t) ], w)
    go (c ∷ r) p k rec =
        let (u, v, w) = rec true (sym (prefix_loop_child base child e es c r p) ∙ h) in
        (((c ∷ r, p, k), u), inr (inl (λ q. cc)), w)

prefix_loop_complete :
    (base : Text) (es : List Entry) (child : Bool)
    → All (IsUnder base) es
    → (child ≡ true) ⊎ HasChild base es
    → prefix_loop base child es ≡ some (base ∷ [])
prefix_loop_complete base [] child u v =
    unfold prefix_loop in elim v [ inl t ↦ rw t | inr t ↦ absurd t ]
prefix_loop_complete base (e ∷ es) child u v =
    let (rest, p, k) = u.0 in go rest p k (λ c. prefix_loop_complete base es c u.1)
  where
    go :
        (rest : Components)
        → e.path ≡ base ∷ rest
        → (rest ≡ [] → e.kind ≡ dir)
        → ((c : Bool) → (c ≡ true) ⊎ HasChild base es → prefix_loop base c es ≡ some (base ∷ []))
        → prefix_loop base child (e ∷ es) ≡ some (base ∷ [])
    go [] p k rec =
        prefix_loop_base base child e es p (k refl)
        ∙ rec child
            (elim v [ inl t ↦ inl t | inr w ↦ elim w [ inl t ↦ absurd (t p) | inr t ↦ inr t ] ])
    go (c ∷ r) p k rec = prefix_loop_child base child e es c r p ∙ rec true (inl refl)

-- The directory is found exactly when the first path begins with it, every entry lies in it or
-- is that directory, listed as one, and some entry is not that directory.
pub prefix_iff :
    (base : Text) (rest : Components) (e : Entry) (es : List Entry)
    → e.path ≡ base ∷ rest
    → (prefix (e ∷ es) ≡ some (base ∷ [])) ↔ (All (IsUnder base) (e ∷ es) × HasChild base (e ∷ es))
unfolding prefix
prefix_iff base rest e es p =
    let at : prefix (e ∷ es) ≡ prefix_loop base false (e ∷ es) = ap (λ q. prefix_at q (e ∷ es)) p in
    (
      (λ h.
          let (u, v, w) = prefix_loop-Sound base (e ∷ es) false (sym at ∙ h) in
          (u, elim v [ inl t ↦ cc | inr t ↦ t ])),
      λ (u, v). at ∙ prefix_loop_complete base (e ∷ es) false u (inr v),
    )
