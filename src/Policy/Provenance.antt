-- ===== src/Policy/Provenance.antt =====
-- `Provenance`, `build` and `retains_provenance` of src/install_policy.rs. A group of the
-- `BTreeMap` is read off the entries by its build; that a build occurs in several entries makes its
-- group be compared several times.
use packslip.Base.{
  ℕ, ◌≡◌, refl, Bool, true, false, not, ◌&&◌, ◌||◌, List, [], ◌∷◌, all, any, ltb, leb,
  if◌then◌else◌, arith,
}
use packslip.Base.Text.{Text, codes, text_eq, starts_with}

pub record Provenance : Type 0 where
  pub scope : Text
  pub links : ℕ

-- `scope.split_once(", {")`, as far as its first part.
unfoldable pub build : Text → Text
build [] = []
build (x ∷ xs) = let rest = build xs in if starts_with (x ∷ xs) (codes ", {") then [] else x ∷ rest

-- `sort_by(|a, b| b.cmp(a))`
unfoldable pub insert : ℕ → List ℕ → List ℕ
insert n [] = n ∷ []
insert n (m ∷ ms) = let rest = insert n ms in if leb m n then n ∷ m ∷ ms else m ∷ rest

-- The link counts of one build, largest first.
unfoldable pub group : Text → List Provenance → List ℕ
unfolding insert build
group b [] = []
group b (e ∷ es) =
    let rest = group b es in if text_eq (build e.scope) b then insert e.links rest else rest

abbrev offers : Text → List Provenance → Bool
offers b = any (λ e. text_eq (build e.scope) b)

abbrev first_is_linked : List ℕ → Bool
first_is_linked [] = false
first_is_linked (n ∷ _) = ltb 0 n

abbrev pub none_falls : List ℕ → List ℕ → Bool
none_falls (before ∷ bs) (after ∷ as_) = leb before after && none_falls bs as_
none_falls [] _ = true
none_falls (before ∷ bs) [] = true

unfoldable pub is_linked : List Provenance → Provenance → Bool
unfolding group
is_linked previous e = first_is_linked (group (build e.scope) previous)

unfoldable pub shares_a_build : List Provenance → List Provenance → Bool
unfolding is_linked
shares_a_build previous next =
    not (any (is_linked previous) previous)
    || any (λ e. is_linked previous e && offers (build e.scope) next) previous

unfoldable pub keeps_counts : List Provenance → List Provenance → Bool
unfolding group
keeps_counts previous next =
    all
      (λ e.
        not (offers (build e.scope) next)
        || none_falls (group (build e.scope) previous) (group (build e.scope) next))
      previous

unfoldable pub retains_provenance : List Provenance → List Provenance → Bool
unfolding shares_a_build keeps_counts
retains_provenance previous next = shares_a_build previous next && keeps_counts previous next

none_falls_refl : (ns : List ℕ) → none_falls ns ns ≡ true
none_falls_refl [] = refl
none_falls_refl (n ∷ ns) = ground (arith, none_falls_refl ns)
