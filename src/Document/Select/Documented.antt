-- ===== src/Document/Select/Documented.antt =====
-- `select_artifact` of src/model.rs against the rule that its documentation states.
use mathlib.Core.Path.{subst}
use mathlib.Core.Option.{some-injective}
use packslip.Base.{
  ℕ, suc, ◌+◌, ◌-◌, ◌≡◌, ◌≢◌, ◌↔◌, ◌⊎◌, inl, inr, refl, sym, ap, ◌∙◌, true, ◌&&◌, List, [], ◌∷◌,
  ◌++◌, Option, none, some, length, All, Option-cases, Bool-cases, Result, arith,
}
use packslip.Base.Text.{Text, text_eq, text_eq?, text_eq_iff}
use packslip.Forge.Names.{text_eq?_iff}
use packslip.Document.{Artifact}
use packslip.Document.Select.{
  Host, Selection, Key, position, fits, count, specificity, rank, candidate, select_artifact,
}
use packslip.Document.Select.Choice.{IsChoice, IsSelection-IsChoice}
use packslip.Document.Select.Rule.{select_artifact-candidate_iff}

-- An artifact that does not name the value runs with any.
abbrev pub IsFor : Option Text → Option Text → Type 0
IsFor value wanted = (value ≡ none) ⊎ ((text : Text) × (value ≡ some text) × (wanted ≡ some text))

abbrev pub named : List (Option Text) → List Text
named [] = []
named (none ∷ values) = named values
named (some text ∷ values) = text ∷ named values

-- The artifact fits, names so many of os, arch and libc, and its format is followed by one less
-- than so many of the consumer's.
pub record IsRanked (host : Host) (variant : Option Text) (formats : List Text) (a : Artifact)
    (key : Key) : Type 0 where
  pub os : IsFor a.os (some host.os)
  pub arch : IsFor a.arch (some host.arch)
  pub libc : IsFor a.libc host.libc
  pub of_variant : a.variant ≡ variant
  pub specific : key.0 ≡ length (named (a.os ∷ a.arch ∷ a.libc ∷ []))
  pub format_ : Text
  pub has_format : a.format ≡ some format_
  pub before : List Text
  pub after : List Text
  pub place : formats ≡ before ++ (format_ ∷ after)
  pub first : All (λ f. f ≢ format_) before
  pub early : key.1 ≡ suc (length after)

fits_iff : (value wanted : Option Text) → (fits value wanted ≡ true) ↔ IsFor value wanted
fits_iff none wanted = (λ h. inl refl, λ h. refl)
fits_iff (some v) none = (λ h. cc, λ h. elim h [ inl e ↦ cc | inr (t, e, f) ↦ cc ])
fits_iff (some v) (some w) = (
  λ h. inr (v, refl, ap some (sym ((text_eq_iff v w).0 h))),
  λ h. elim h [ inl e ↦ cc | inr (t, e, f) ↦ (text_eq_iff v w).1 (some-injective _ _ (e ∙ sym f)) ],
)

length-named :
    (value : Option Text) (values : List (Option Text))
    → length (named (value ∷ values)) ≡ count value + length (named values)
length-named none values = omega arith
length-named (some text) values = omega arith

specificity-named : (a : Artifact) → specificity a ≡ length (named (a.os ∷ a.arch ∷ a.libc ∷ []))
specificity-named a = omega (
  arith,
  length-named a.os (a.arch ∷ a.libc ∷ []),
  length-named a.arch (a.libc ∷ []),
  length-named a.libc [],
)

-- The format stands in the list with so many after it, and not before.
abbrev IsPlaced : List Text → Text → ℕ → Type 0
IsPlaced formats f n =
    (before : List Text) × (after : List Text) × (formats ≡ before ++ (f ∷ after))
    × All (λ g. g ≢ f) before
    × (n ≡ suc (length after))

position-IsPlaced :
    (formats : List Text) (f : Text) (i : ℕ)
    → position formats f ≡ some i
    → IsPlaced formats f (length formats - i)
unfolding position
position-IsPlaced [] f i h = cc
position-IsPlaced (known ∷ formats) f i h = elim (Bool-cases (text_eq known f)) [
  | inl e ↦
      let z : 0 ≡ i = some-injective _ _ (rw (e, position) at h) in
      ([], formats, ap (◌∷ formats) ((text_eq_iff known f).0 e), tt, omega (arith, z))
  | inr e ↦ elim (Option-cases (position formats f)) [
    | inl n ↦ cc (rw (e, n, position) at h)
    | inr (j, q) ↦
        let z : suc j ≡ i = some-injective _ _ (rw (e, q, position) at h) in
        let (before, after, p, a, m) = position-IsPlaced formats f j q in
        (
          known ∷ before,
          after,
          ap (known ∷◌) p,
          (λ d. cc (sym e ∙ (text_eq_iff known f).1 d), a),
          omega (arith, z, m),
        )
  ]
]

IsPlaced-position :
    (before after : List Text) (f : Text)
    → All (λ g. g ≢ f) before
    → (i : ℕ) × (position (before ++ (f ∷ after)) f ≡ some i)
      × (length (before ++ (f ∷ after)) - i ≡ suc (length after))
unfolding position
IsPlaced-position [] after f a = (0, rw ((text_eq_iff f f).1 refl, position) refl, omega arith)
IsPlaced-position (g ∷ before) after f a =
    let (i, e, m) = IsPlaced-position before after f a.1 in
    (
      suc i,
      elim (Bool-cases (text_eq g f)) [
        | inl q ↦ absurd (a.0 ((text_eq_iff g f).0 q))
        | inr q ↦ rw (q, e, position) refl
      ],
      omega (arith, m),
    )

rank-place :
    (formats : List Text) (a : Artifact) (k : Key)
    → rank formats a ≡ some k
    → (f : Text) × (a.format ≡ some f) × (k.0 ≡ specificity a) × IsPlaced formats f k.1
unfolding rank
rank-place formats a k h = elim (Option-cases a.format) [
  | inl e ↦ cc (rw (e, rank) at h)
  | inr (f, e) ↦ elim (Option-cases (position formats f)) [
    | inl q ↦ cc (rw (e, q, rank) at h)
    | inr (i, q) ↦
        let z : (specificity a, length formats - i) ≡ k =
          some-injective _ _ (rw (e, q, rank) at h) in
        (
          f,
          e,
          sym (ap (λ x. x.0) z),
          subst (IsPlaced formats f) (ap (λ x. x.1) z) (position-IsPlaced formats f i q),
        )
  ]
]

-- The key that the code gives an artifact is its rank, and it gives none to others.
candidate-IsRanked :
    (host : Host) (variant : Option Text) (formats : List Text) (a : Artifact) (k : Key)
    → candidate host variant formats a ≡ some k
    → IsRanked host variant formats a k
unfolding candidate
candidate-IsRanked host variant formats a k h =
    elim (Bool-cases (
      fits a.os (some host.os)
      && fits a.arch (some host.arch)
      && fits a.libc host.libc
      && text_eq? a.variant variant)) [
        | inr e ↦ cc (rw (e, candidate) at h)
        | inl e ↦
            let (f, q, n, (before, after, p, u, m)) =
              rank-place formats a k (rw (e, candidate) at h) in
            record {
              os = (fits_iff a.os (some host.os)).0 (ground (arith, e));
              arch = (fits_iff a.arch (some host.arch)).0 (ground (arith, e));
              libc = (fits_iff a.libc host.libc).0 (ground (arith, e));
              of_variant = (text_eq?_iff a.variant variant).0 (ground (arith, e));
              specific = n ∙ specificity-named a;
              format_ = f;
              has_format = q;
              before = before;
              after = after;
              place = p;
              first = u;
              early = m;
            }
      ]

IsRanked-candidate :
    (host : Host) (variant : Option Text) (formats : List Text) (a : Artifact) (k : Key)
    → IsRanked host variant formats a k
    → candidate host variant formats a ≡ some k
unfolding candidate rank
IsRanked-candidate host variant formats a (n, m) r =
    let o = (fits_iff a.os (some host.os)).1 r.os in
    let c = (fits_iff a.arch (some host.arch)).1 r.arch in
    let l = (fits_iff a.libc host.libc).1 r.libc in
    let v = (text_eq?_iff a.variant variant).1 r.of_variant in
    let (i, e, z) = IsPlaced-position r.before r.after r.format_ r.first in
    let e' : position formats r.format_ ≡ some i = rw r.place e in
    let z' : length formats - i ≡ m = rw r.place z ∙ sym r.early in
    let s : specificity a ≡ n = specificity-named a ∙ sym r.specific in
    rw (o, c, l, v, r.has_format, e', z', s, candidate, rank) refl

-- `select_artifact` returns a result exactly when the documented rule does. An artifact is in
-- question when each of os, arch and libc that it names is the host's, its variant is the wanted
-- one and its format is one of the consumer's; it ranks by how many of os, arch and libc it names,
-- then by how early the format first stands in the consumer's list. The result is the artifact that
-- alone ranks highest; no match exactly when none is in question; and an ambiguity, of the first
-- and the last of them, exactly when several rank highest.
pub select_artifact_iff :
    (artifacts : List Artifact) (host : Host) (variant : Option Text) (formats : List Text)
    (r : Result Selection Artifact)
    → (select_artifact artifacts host variant formats ≡ r)
      ↔ IsChoice (IsRanked host variant formats) artifacts r
select_artifact_iff artifacts host variant formats r =
    let by_key = select_artifact-candidate_iff artifacts host variant formats r in
    let by_rank =
      IsSelection-IsChoice (IsRanked host variant formats) (candidate host variant formats)
        (λ a k. (
          candidate-IsRanked host variant formats a k,
          IsRanked-candidate host variant formats a k,
        ))
        artifacts r in
    (λ e. by_rank.0 (by_key.0 e), λ h. by_key.1 (by_rank.1 h))
