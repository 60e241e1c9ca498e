-- ===== src/Archive/Bins.antt =====
-- `normalize` and `resolve_bins` of src/archive.rs.
use mathlib.Core.Path.{subst}
use packslip.Base.{
  select-All_back, ℕ, zero, suc, ◌≤◌, ◌<◌, ◌≡◌, ◌⊎◌, inl, inr, refl, sym, ap, Bool, true, false,
  ◌&&◌, arith, List, [], ◌∷◌, ◌++◌, none, ◌==◌, select, any, any-All, All, All_imp, Bool-cases, ok,
  bind-eq-ok, ok-injective,
}
use packslip.Base.Text.{Text, codes, text_eq, text_eq_refl, contains_byte, strip_prefix}
use packslip.Extract.Names.Split.{All_select, All_select_kept}
use packslip.Document.{Bin}
use packslip.Document.Names.{is_in, named}
use packslip.Archive.{
  normalize, depth, wanted, goes_after, insert_path, sort_paths, at_shallowest, choose_path,
  resolve_bin, resolve_bins,
}

-- `./` the given number of times.
abbrev pub dots : ℕ → Text
dots zero = []
dots (suc n) = b'.' ∷ b'/' ∷ dots n

-- `normalize` takes off every leading `./` and nothing else: what is left does not begin with one.
pub normalize_lem :
    (path : Text)
    → ((n : ℕ) × (path ≡ dots n ++ normalize path))
      × (strip_prefix (normalize path) (codes "./") ≡ none)
unfolding normalize strip_prefix codes
normalize_lem [] = ((0, refl), refl)
normalize_lem (x ∷ []) = ((0, refl), ground arith)
normalize_lem (x ∷ y ∷ rest) = elim (Bool-cases (x == b'.' && y == b'/')) [
  | inl e ↦
      let ((n, p), q) = normalize_lem rest in
      let a : x ≡ b'.' = ground (arith, e) in
      let b : y ≡ b'/' = ground (arith, e) in ((suc n, rw e (cc)), rw e q)
  | inr e ↦ ((0, rw e refl), rw e (ground (arith, e)))
]

module _ (P : Text → Type 0) where
  insert_path-All : (f : Text) (gs : List Text) → P f → All P gs → All P (insert_path f gs)
  insert_path-All f [] p h = (p, tt)
  insert_path-All f (g ∷ gs) p h = elim (Bool-cases (goes_after f g)) [
    | inl e ↦ rw e (h.0, insert_path-All f gs p h.1)
    | inr e ↦ rw e (p, h)
  ]

  insert_path-All_back : (f : Text) (gs : List Text) → All P (insert_path f gs) → P f × All P gs
  insert_path-All_back f [] h = (h.0, tt)
  insert_path-All_back f (g ∷ gs) h = elim (Bool-cases (goes_after f g)) [
    | inl e ↦ let k = rw e at h in let (p, q) = insert_path-All_back f gs k.1 in (p, (k.0, q))
    | inr e ↦ let k = rw e at h in (k.0, k.1)
  ]

  sort_paths-All : (fs : List Text) → All P fs → All P (sort_paths fs)
  unfolding sort_paths
  sort_paths-All [] h = tt
  sort_paths-All (f ∷ fs) h = insert_path-All f (sort_paths fs) h.0 (sort_paths-All fs h.1)

  sort_paths-All_back : (fs : List Text) → All P (sort_paths fs) → All P fs
  unfolding sort_paths
  sort_paths-All_back [] h = tt
  sort_paths-All_back (f ∷ fs) h =
      let (p, q) = insert_path-All_back f (sort_paths fs) h in (p, sort_paths-All_back fs q)

-- The first path is as shallow as any.
abbrev IsLeast : List Text → Type 0
IsLeast [] = Unit
IsLeast (f ∷ fs) = All (λ g. depth f ≤ depth g) fs

insert_path-IsLeast : (f : Text) (gs : List Text) → IsLeast gs → IsLeast (insert_path f gs)
insert_path-IsLeast f [] h = tt
insert_path-IsLeast f (g ∷ gs) h = elim (Bool-cases (goes_after f g)) [
  | inl e ↦ rw e (insert_path-All (λ x. depth g ≤ depth x) f gs (ground (arith, e)) h)
  | inr e ↦
      let l : depth f ≤ depth g = ground (arith, e) in
      rw e (l, All_imp gs (λ x k. omega (arith, l, k)) h)
]

sort_paths-IsLeast : (fs : List Text) → IsLeast (sort_paths fs)
unfolding sort_paths
sort_paths-IsLeast [] = tt
sort_paths-IsLeast (f ∷ fs) = insert_path-IsLeast f (sort_paths fs) (sort_paths-IsLeast fs)

select-nil :
    (keep : Text → Bool) (fs : List Text) → select keep fs ≡ [] → All (λ f. keep f ≡ false) fs
select-nil keep [] h = tt
select-nil keep (f ∷ fs) h = elim (Bool-cases (keep f)) [
  | inl e ↦ cc (rw e at h)
  | inr e ↦ (e, select-nil keep fs (rw e at h))
]

deeper :
    (d : ℕ) (fs : List Text)
    → All (λ g. d ≤ depth g) fs
    → All (λ g. (depth g == d) ≡ false) fs
    → All (λ g. d < depth g) fs
deeper d [] a b = tt
deeper d (f ∷ fs) a b = (ground (arith, a.0, b.0), deeper d fs a.1 b.1)

shallowest_one :
    (fs : List Text) (one : Text)
    → IsLeast fs
    → at_shallowest fs ≡ one ∷ []
    → (rest : List Text) × (fs ≡ one ∷ rest) × All (λ f. depth one < depth f) rest
shallowest_one [] one l h = cc
shallowest_one (f ∷ fs) one l h =
    let r : (depth f == depth f) ≡ true = ground arith in
    let k : f ∷ select (λ g. depth g == depth f) fs ≡ one ∷ [] = rw r at h in
    let same : f ≡ one = cc in
    let none_more : select (λ g. depth g == depth f) fs ≡ [] = cc in
    (
      fs,
      ap (◌∷ fs) same,
      subst (λ u. All (λ g. depth u < depth g) fs) same
          (deeper (depth f) fs l (select-nil (λ g. depth g == depth f) fs none_more)),
    )

-- The file is one that is wanted, and every other that is wanted lies deeper.
pub record IsShallowest (files : List Text) (windows : Bool) (bin : Bin) (one : Text) : Type 0 where
  pub listed : is_in one files ≡ true
  pub fits : wanted windows bin one ≡ true
  pub others : All (λ f. wanted windows bin f ≡ true → (f ≡ one) ⊎ (depth one < depth f)) files

IsShallowest-of :
    (files : List Text) (windows : Bool) (bin : Bin) (one : Text)
    → at_shallowest (sort_paths (select (wanted windows bin) files)) ≡ one ∷ []
    → IsShallowest files windows bin one
IsShallowest-of files windows bin one h =
    let keep = wanted windows bin in
    let found = select keep files in
    let (rest, e, d) = shallowest_one (sort_paths found) one (sort_paths-IsLeast found) h in
    let head : (P : Text → Type 0) → All P found → P one =
      λ P a. (subst (All P) e (sort_paths-All P found a)).0 in
    record {
      listed =
          head (λ x. (p : Text → Bool) → p x ≡ true → any p files ≡ true)
            (All_select (λ x. (p : Text → Bool) → p x ≡ true → any p files ≡ true) keep files
              (any-All files))
            (text_eq one) (text_eq_refl one);
      fits = head (λ x. keep x ≡ true) (All_select_kept keep files);
      others =
          select-All_back (λ f. (f ≡ one) ⊎ (depth one < depth f)) keep files
            (sort_paths-All_back (λ f. (f ≡ one) ⊎ (depth one < depth f)) found
              (subst (All (λ f. (f ≡ one) ⊎ (depth one < depth f))) (sym e)
                (inl refl, All_imp rest (λ f l. inr l) d)));
    }

-- An executable with a slash in its path is kept as it is, and is a file of the archive; another
-- is given the path of a shallowest file that is wanted.
abbrev pub IsResolved : List Text → Bool → Bin → Bin → Type 0
IsResolved files windows bin resolved =
    ((contains_byte b'/' bin.path ≡ true) × (is_in bin.path files ≡ true) × (resolved ≡ bin))
    ⊎ ((contains_byte b'/' bin.path ≡ false) × IsShallowest files windows bin resolved.path)

choose_path-ok :
    (windows : Bool) (bin : Bin) (found : List Text) (resolved : Bin)
    → choose_path windows bin found ≡ ok resolved
    → found ≡ resolved.path ∷ []
unfolding named
choose_path-ok windows bin [] resolved h = cc
choose_path-ok windows bin (one ∷ []) resolved h = ap (λ b. b.path ∷ []) (ok-injective h)
choose_path-ok windows bin (one ∷ two ∷ more) resolved h = cc

resolve_bin-IsResolved :
    (files : List Text) (windows : Bool) (bin resolved : Bin)
    → resolve_bin files windows bin ≡ ok resolved
    → IsResolved files windows bin resolved
unfolding resolve_bin
resolve_bin-IsResolved files windows bin resolved h =
    elim (Bool-cases (contains_byte b'/' bin.path)) [
      | inl s ↦ elim (Bool-cases (is_in bin.path files)) [
        | inl i ↦ inl (s, i, sym (ok-injective (rw (s, i, resolve_bin) at h)))
        | inr i ↦ cc (rw (s, i, resolve_bin) at h)
      ]
      | inr s ↦ inr (
          (
            s,
            IsShallowest-of files windows bin resolved.path
                (choose_path-ok windows bin _ resolved (rw (s, resolve_bin) at h)),
          ))
    ]

abbrev pub AllResolved : List Text → Bool → List Bin → List Bin → Type 0
AllResolved files windows [] [] = Unit
AllResolved files windows (bin ∷ bins) (r ∷ resolved) =
    IsResolved files windows bin r × AllResolved files windows bins resolved
AllResolved files windows _ _ = ⊥

-- Where `resolve_bins` returns, each executable has been resolved, in order: one with a slash in its
-- path is a file of the archive and is kept as it is, and another has the path of a file that is
-- wanted, with every other wanted file deeper.
pub resolve_bins-AllResolved :
    (files : List Text) (windows : Bool) (bins resolved : List Bin)
    → resolve_bins files windows bins ≡ ok resolved
    → AllResolved files windows bins resolved
unfolding resolve_bins
resolve_bins-AllResolved files windows [] resolved h =
    subst (AllResolved files windows []) (ok-injective h) tt
resolve_bins-AllResolved files windows (bin ∷ bins) resolved h =
    let (r, a, h₁) = bind-eq-ok (resolve_bin files windows bin) _ h in
    let (rs, b, h₂) = bind-eq-ok (resolve_bins files windows bins) _ h₁ in
    subst (AllResolved files windows (bin ∷ bins)) (ok-injective h₂) (
      resolve_bin-IsResolved files windows bin r a,
      resolve_bins-AllResolved files windows bins rs b,
    )
