-- ===== src/Document/Select/Distinct.antt =====
-- `select_artifact` of src/model.rs on the artifacts of a release that `Statement::validate` accepts.
use mathlib.Core.Path.{subst}
use mathlib.Core.Option.{some-injective}
use packslip.Base.{
  ℕ, suc, ◌-◌, ◌<◌, ◌≡◌, ◌⊎◌, inl, inr, refl, sym, ap, ◌∙◌, Bool, true, false, ◌&&◌, List, [], ◌∷◌,
  ◌++◌, Option, none, some, length, All, All-concat_split, select, Pairwise, Option-cases,
  Bool-cases, ok, err, arith,
}
use packslip.Base.Text.{Text, text_eq, text_eq?, text_eq_iff}
use packslip.Extract.Names.Split.{All_select, All_select_kept}
use packslip.Forge.Names.{text_eq?_iff}
use packslip.Document.{Artifact, Statement}
use packslip.Document.Invalid.{is_some}
use packslip.Document.Select.{
  Host, ambiguous, Key, position, fits, rank, candidate, select_artifact,
}
use packslip.Document.Select.Ranks.{holders, has_key, eq_key}
use packslip.Document.Select.Rule.{select_artifact-candidate_iff}
use packslip.Document.Validate.{validate}
use packslip.Document.Validate.Wellformed.{IsSameBuild, validate-IsWellformed}

select-Pairwise :
    {A : Type 0} (R : A → A → Type 0) (p : A → Bool) (xs : List A)
    → Pairwise R xs
    → Pairwise R (select p xs)
select-Pairwise R p [] h = tt
select-Pairwise R p (x ∷ xs) h = elim (Bool-cases (p x)) [
  | inl e ↦ rw e (All_select (R x) p xs h.0, select-Pairwise R p xs h.1)
  | inr e ↦ rw e (select-Pairwise R p xs h.1)
]

has_key_iff : (k : Key) (o : Option Key) → has_key k o ≡ true → o ≡ some k
has_key_iff k none h = cc
has_key_iff k (some k') h = ap some (eq_key k' k h)

position_later :
    (known : Text) (formats : List Text) (f : Text) (i : ℕ)
    → text_eq known f ≡ false
    → position (known ∷ formats) f ≡ some i
    → (j : ℕ) × (position formats f ≡ some j) × (i ≡ suc j)
unfolding position
position_later known formats f i e h = elim (Option-cases (position formats f)) [
  | inl n ↦ cc (rw (e, n, position) at h)
  | inr (j, q) ↦ (j, q, sym (some-injective _ _ (rw (e, q, position) at h)))
]

-- A position is one of the list's, and has one format.
position-bound :
    (formats : List Text) (f : Text) (i : ℕ) → position formats f ≡ some i → i < length formats
unfolding position
position-bound [] f i h = cc
position-bound (known ∷ formats) f i h = elim (Bool-cases (text_eq known f)) [
  | inl e ↦ let z = some-injective _ _ (rw (e, position) at h) in omega (arith, z)
  | inr e ↦
      let (j, q, z) = position_later known formats f i e h in
      omega (arith, z, position-bound formats f j q)
]

position_unique :
    (formats : List Text) (f g : Text) (i : ℕ)
    → position formats f ≡ some i
    → position formats g ≡ some i
    → f ≡ g
unfolding position
position_unique [] f g i h k = cc
position_unique (known ∷ formats) f g i h k = elim (Bool-cases (text_eq known f)) [
  | inl e ↦
      let z = some-injective _ _ (rw (e, position) at h) in
      elim (Bool-cases (text_eq known g)) [
        | inl d ↦ sym ((text_eq_iff known f).0 e) ∙ (text_eq_iff known g).0 d
        | inr d ↦
            let (j, _, y) = position_later known formats g i d k in absurd (omega (arith, z, y))
      ]
  | inr e ↦
      let (j, q, z) = position_later known formats f i e h in
      elim (Bool-cases (text_eq known g)) [
        | inl d ↦ let y = some-injective _ _ (rw (d, position) at k) in absurd (omega (arith, z, y))
        | inr d ↦
            let (j', q', y) = position_later known formats g i d k in
            let same : j' ≡ j = omega (arith, z, y) in
            position_unique formats f g j q (q' ∙ ap some same)
      ]
]

fits-cases :
    (value wanted : Option Text) → fits value wanted ≡ true → (value ≡ none) ⊎ (value ≡ wanted)
fits-cases none wanted h = inl refl
fits-cases (some v) none h = cc
fits-cases (some v) (some w) h = inr (ap some ((text_eq_iff v w).0 h))

-- Two values that fit one host's and are both there or both not are the same.
fits_same :
    (a b wanted : Option Text)
    → fits a wanted ≡ true
    → fits b wanted ≡ true
    → is_some a ≡ is_some b
    → a ≡ b
fits_same none none wanted h k e = refl
fits_same none (some v) wanted h k e = cc
fits_same (some v) none wanted h k e = cc
fits_same (some v) (some w) none h k e = cc
fits_same (some v) (some w) (some u) h k e =
    ap some ((text_eq_iff v u).0 h ∙ sym ((text_eq_iff w u).0 k))

-- What an artifact with a key has.
record IsFit (host : Host) (variant : Option Text) (formats : List Text) (a : Artifact) (k : Key)
    : Type 0 where
  os : fits a.os (some host.os) ≡ true
  arch : fits a.arch (some host.arch) ≡ true
  libc : fits a.libc host.libc ≡ true
  of_variant : a.variant ≡ variant
  format_ : Text
  has_format : a.format ≡ some format_
  place : ℕ
  at : position formats format_ ≡ some place
  rank_is : length formats - place ≡ k.1

rank-IsFit :
    (formats : List Text) (a : Artifact) (k : Key)
    → rank formats a ≡ some k
    → (f : Text) × (i : ℕ) × (a.format ≡ some f)
      × (position formats f ≡ some i)
      × (length formats - i ≡ k.1)
unfolding rank
rank-IsFit formats a k h = elim (Option-cases a.format) [
  | inl e ↦ cc (rw (e, rank) at h)
  | inr (f, e) ↦ elim (Option-cases (position formats f)) [
    | inl q ↦ cc (rw (e, q, rank) at h)
    | inr (i, q) ↦ (f, i, e, q, ap (λ x. x.1) (some-injective _ _ (rw (e, q, rank) at h)))
  ]
]

IsFit-of :
    (host : Host) (variant : Option Text) (formats : List Text) (a : Artifact) (k : Key)
    → candidate host variant formats a ≡ some k
    → IsFit host variant formats a k
unfolding candidate
IsFit-of host variant formats a k h =
    elim (Bool-cases (
      fits a.os (some host.os)
      && fits a.arch (some host.arch)
      && fits a.libc host.libc
      && text_eq? a.variant variant)) [
        | inr e ↦ cc (rw (e, candidate) at h)
        | inl e ↦
            let (f, i, q, p, r) = rank-IsFit formats a k (rw (e, candidate) at h) in
            record {
              os = ground (arith, e);
              arch = ground (arith, e);
              libc = ground (arith, e);
              of_variant = (text_eq?_iff a.variant variant).0 (ground (arith, e));
              format_ = f;
              has_format = q;
              place = i;
              at = p;
              rank_is = r;
            }
      ]

-- Which of os, arch and libc the artifacts name.
abbrev pub NamesSame : Artifact → Artifact → Type 0
NamesSame a b =
    (is_some a.os ≡ is_some b.os)
    × (is_some a.arch ≡ is_some b.arch)
    × (is_some a.libc ≡ is_some b.libc)

tied_build :
    (host : Host) (variant : Option Text) (formats : List Text) (a b : Artifact) (k : Key)
    → IsFit host variant formats a k
    → IsFit host variant formats b k
    → NamesSame a b
    → IsSameBuild a b
tied_build host variant formats a b k x y (o, r, l) =
    let same : x.place ≡ y.place = omega (
      arith,
      position-bound formats x.format_ x.place x.at,
      position-bound formats y.format_ y.place y.at,
      x.rank_is,
      y.rank_is,
    ) in
    let f : x.format_ ≡ y.format_ =
      position_unique formats x.format_ y.format_ y.place (x.at ∙ ap some same) y.at in
    (
      fits_same a.os b.os (some host.os) x.os y.os o,
      fits_same a.arch b.arch (some host.arch) x.arch y.arch r,
      fits_same a.libc b.libc host.libc x.libc y.libc l,
      x.of_variant ∙ sym y.of_variant,
      x.has_format ∙ ap some f ∙ sym y.has_format,
    )

module _ {V T : Type 0} (semver : Text → Option V) (timestamp : Text → Option T) where
  -- In a release that `validate` accepts, the two artifacts that `select_artifact` cannot choose
  -- between differ in which of os, arch and libc they name.
  pub select_artifact-tied :
      (s : Statement) (host : Host) (variant : Option Text) (formats : List Text) (x y : Text)
      → validate semver timestamp s ≡ ok tt
      → select_artifact s.predicate.artifacts host variant formats ≡ err (ambiguous x y)
      → (k : Key) × (c : Artifact) × (t : Artifact) × (mid : List Artifact) × (holders
            (candidate host variant formats)
            k
            s.predicate.artifacts
          ≡ c ∷ (mid ++ (t ∷ [])))
        × (x ≡ c.name)
        × (y ≡ t.name)
        × (¬ NamesSame c t)
  unfolding holders
  select_artifact-tied s host variant formats x y v h =
      let key = candidate host variant formats in
      let artifacts = s.predicate.artifacts in
      let (k, _, (c, t, mid, held, p, q)) =
        (select_artifact-candidate_iff artifacts host variant formats _).0 h in
      let distinct =
        select-Pairwise (λ a b. ¬ IsSameBuild a b) (λ a. has_key k (key a)) artifacts
          (validate-IsWellformed semver timestamp s v).builds_distinct in
      let with_key = All_select_kept (λ a. has_key k (key a)) artifacts in
      let pair = subst (Pairwise (λ a b. ¬ IsSameBuild a b)) held distinct in
      let keys = subst (All (λ a. has_key k (key a) ≡ true)) held with_key in
      let apart = (All-concat_split (λ b. ¬ IsSameBuild c b) mid t pair.0).1 in
      let last = (All-concat_split (λ a. has_key k (key a) ≡ true) mid t keys.1).1 in
      (
        k,
        c,
        t,
        mid,
        held,
        p,
        q,
        λ same. apart (
            tied_build host variant formats c t k
              (IsFit-of host variant formats c k (has_key_iff k (key c) keys.0))
              (IsFit-of host variant formats t k (has_key_iff k (key t) last)) same),
      )
