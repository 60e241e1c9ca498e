-- ===== src/Forge/Check/Accepted.antt =====
-- `check` of src/forge.rs against a description of the releases.
use mathlib.Core.Option.{some-injective}
use packslip.Base.{
  ◌≡◌, ◌↔◌, refl, sym, ap, ◌∙◌, Bool, true, false, not, ◌&&◌, ◌||◌, List, [], ◌∷◌, Option, none,
  some, All, find, ok, ◌>>=◌, bind-eq-ok, refuse_if-eq-ok, passed_eq_ok, ok-injective, Bool-cases,
  Option-cases, inl, inr, arith,
}
use packslip.Base.Text.{Text, text_eq, text_eq?, text_eq_iff}
use packslip.Forge.Names.{ForgeName, parse, issuer, uri, signer_prefix, same_project, text_eq?_iff}
use packslip.Forge.Urls.{identity_has_prefix, same_url}
use packslip.Forge.Pins.{ForgePin, SourceRepository}
use packslip.Forge.Check.{
  Evidence, Expected, Continuity, Check, all_pins, known_ids, compares_ids, source_id, relation,
  classify, checked, check_names, check_inner, is_given, has_pins, by_name, by_ids, refuse_source,
}

-- With IDs on both sides every one is the certificate's; otherwise the name is the requested one.
abbrev pub IsIdentified : Expected → Text → Option Text → Type 0
IsIdentified expected signed none = same_project signed expected.project ≡ true
IsIdentified expected signed (some actual) =
    All (λ (id, _). id ≡ actual) (known_ids expected.resolved_repository_id (all_pins expected))
    × (compares_ids expected (some actual) ≡ false → same_project signed expected.project ≡ true)

pub record IsAccepted (expected : Expected) (signed identity : Text) (require_signer : Bool)
    (given_issuer : Option Text) (source : Option SourceRepository) : Type 0 where
  pub want : ForgeName
  pub got : ForgeName
  pub requested_on_forge : parse expected.project ≡ some want
  pub signed_on_forge : parse signed ≡ some got
  pub same_host : got.host ≡ want.host
  pub same_subpath : got.subpath ≡ want.subpath
  pub issued : given_issuer ≡ some (issuer want)
  pub signer_inside :
      require_signer ≡ true → identity_has_prefix identity (signer_prefix got) ≡ true
  pub source_inside : (s : SourceRepository) → source ≡ some s → same_url s.uri (uri got) ≡ true
  pub identified : IsIdentified expected signed (source_id source)

-- What an accepted release is told to be.
abbrev pub accepted_check : Expected → Text → Text → Option SourceRepository → Check
accepted_check expected signed identity source =
    checked expected signed identity source
      (relation expected signed (same_project signed expected.project))

find-none :
    (actual : Text) (ids : List (Text × Evidence))
    → find (λ (id, _). not (text_eq id actual)) ids ≡ none
    → All (λ (id, _). id ≡ actual) ids
find-none actual [] h = tt
find-none actual ((id, evidence) ∷ ids) h = elim (Bool-cases (text_eq id actual)) [
  | inl e ↦ ((text_eq_iff id actual).0 e, find-none actual ids (rw e at h))
  | inr e ↦ cc (rw e at h)
]

All_find :
    (actual : Text) (ids : List (Text × Evidence))
    → All (λ (id, _). id ≡ actual) ids
    → find (λ (id, _). not (text_eq id actual)) ids ≡ none
All_find actual [] h = refl
All_find actual ((id, evidence) ∷ ids) h =
    rw ((text_eq_iff id actual).1 h.0) (All_find actual ids h.1)

-- Whether there are IDs on the consumer's side.
abbrev has_ids : Expected → Bool
has_ids expected = has_pins (all_pins expected) || is_given expected.resolved_repository_id

no_ids :
    (r : Option Text) (pins : List (ForgePin × Evidence))
    → (has_pins pins || is_given r) ≡ false
    → known_ids r pins ≡ []
no_ids none [] h = refl
no_ids (some r) [] h = cc
no_ids r (p ∷ pins) h = cc

by_name_sound :
    (expected : Expected) (signed : Text) (b : Bool) (c : Continuity)
    → by_name expected signed b ≡ ok c
    → (b ≡ true) × (c ≡ relation expected signed b)
by_name_sound expected signed true c h = (refl, sym (ok-injective h))
by_name_sound expected signed false c h = cc

by_ids_sound :
    (expected : Expected) (signed actual : Text) (f : Option (Text × Evidence)) (c : Continuity)
    → by_ids expected signed actual f ≡ ok c
    → (f ≡ none) × (c ≡ relation expected signed (same_project signed expected.project))
by_ids_sound expected signed actual none c h = (refl, sym (ok-injective h))
by_ids_sound expected signed actual (some x) c h = cc

classify_sound :
    (expected : Expected) (signed : Text) (actual : Option Text) (c : Continuity)
    → classify expected signed actual ≡ ok c
    → IsIdentified expected signed actual
      × (c ≡ relation expected signed (same_project signed expected.project))
unfolding classify
classify_sound expected signed none c h = by_name_sound expected signed _ c h
classify_sound expected signed (some actual) c h = elim (Bool-cases (has_ids expected)) [
  | inl e ↦
      let (f, q) = by_ids_sound expected signed actual _ c (rw (e, classify) at h) in
      ((find-none actual _ f, λ z. cc (e, z)), q)
  | inr e ↦
      let (n, q) = by_name_sound expected signed _ c (rw (e, classify) at h) in
      ((rw (no_ids expected.resolved_repository_id (all_pins expected) e) tt, λ z. n), q)
]

classify_complete :
    (expected : Expected) (signed : Text) (actual : Option Text)
    → IsIdentified expected signed actual
    → classify expected signed actual
      ≡ ok (relation expected signed (same_project signed expected.project))
unfolding classify
classify_complete expected signed none h = rw (h, classify) refl
classify_complete expected signed (some actual) (ids, name) = elim (Bool-cases (has_ids expected)) [
  | inl e ↦ rw (e, All_find actual _ ids, classify) refl
  | inr e ↦ rw (e, name e, classify) refl
]

refuse_source_sound :
    (source : Option SourceRepository) (repository : Text) {u : Unit {0}}
    → refuse_source source repository ≡ ok u
    → (s : SourceRepository) → source ≡ some s
    → same_url s.uri repository ≡ true
refuse_source_sound none repository h s e = cc
refuse_source_sound (some t) repository h s e =
    let fine = refuse_if-eq-ok _ _ h in rw (sym (some-injective _ _ e)) (ground (arith, fine))

refuse_source_complete :
    (source : Option SourceRepository) (repository : Text)
    → ((s : SourceRepository) → source ≡ some s → same_url s.uri repository ≡ true)
    → refuse_source source repository ≡ ok tt
refuse_source_complete none repository h = refl
refuse_source_complete (some t) repository h = rw (h t refl) refl

module _ (expected : Expected) (signed identity : Text) (require_signer : Bool)
    (given_issuer : Option Text) (source : Option SourceRepository) where
  -- The chain of tests on two parsed names.
  Passes : ForgeName → ForgeName → Type 0
  Passes want got =
      (got.host ≡ want.host)
      × (got.subpath ≡ want.subpath)
      × (given_issuer ≡ some (issuer want))
      × (require_signer ≡ true → identity_has_prefix identity (signer_prefix got) ≡ true)
      × ((s : SourceRepository) → source ≡ some s → same_url s.uri (uri got) ≡ true)
      × IsIdentified expected signed (source_id source)

  names_sound :
      (want got : ForgeName) (c : Check)
      → check_names expected signed identity require_signer given_issuer source want got ≡ ok c
      → Passes want got × (c ≡ accepted_check expected signed identity source)
  unfolding check_names Passes
  names_sound want got c h =
      let (named, h₁) =
        passed_eq_ok (not (text_eq got.host want.host) || not (text_eq? got.subpath want.subpath)) _
          _ h in
      let (issued, h₂) = passed_eq_ok (not (text_eq? given_issuer (some (issuer want)))) _ _ h₁ in
      let (inside, h₃) =
        passed_eq_ok (require_signer && not (identity_has_prefix identity (signer_prefix got))) _ _
          h₂ in
      let (u, sourced, h₄) =
        bind-eq-ok (refuse_source source (uri got))
          (λ _. classify expected signed (source_id source) >>= λ k.
            ok (checked expected signed identity source k))
          h₃ in
      let (k, classified, last) =
        bind-eq-ok (classify expected signed (source_id source))
          (λ k. ok (checked expected signed identity source k)) h₄ in
      let (identified, q) = classify_sound expected signed (source_id source) k classified in
      (
        (
          (text_eq_iff got.host want.host).0 (ground arith),
          (text_eq?_iff got.subpath want.subpath).0 (ground arith),
          (text_eq?_iff given_issuer (some (issuer want))).0 (ground arith),
          (λ r. ground arith),
          refuse_source_sound source (uri got) sourced,
          identified,
        ),
        sym (ok-injective last) ∙ ap (checked expected signed identity source) q,
      )

  names_complete :
      (want got : ForgeName)
      → Passes want got
      → check_names expected signed identity require_signer given_issuer source want got
        ≡ ok (accepted_check expected signed identity source)
  unfolding check_names Passes
  names_complete want got (h, p, i, s, r, d) =
      rw
        (
          (text_eq_iff got.host want.host).1 h,
          (text_eq?_iff got.subpath want.subpath).1 p,
          (text_eq?_iff given_issuer (some (issuer want))).1 i,
          signer_passes,
          refuse_source_complete source (uri got) r,
          classify_complete expected signed (source_id source) d,
          check_names,
        )
        refl
    where
      signer_passes :
          (require_signer && not (identity_has_prefix identity (signer_prefix got))) ≡ false
      signer_passes = elim (Bool-cases require_signer) [
        | inl e ↦ rw (e, s e) refl
        | inr e ↦ rw e refl
      ]

-- `check` accepts a release as `c` exactly when all of this holds: the requested and the signed
-- name are names on one forge with one subpath, the issuer is that forge's, the signer is a
-- workflow of the signed repository where that is required, the certificate's source repository is
-- the signed one if there is one, and the identity fits. It fits when every pinned ID, or the
-- resolved ID where there is no pin, is the certificate's ID; if there are none, or the certificate
-- has none, the signed name must be the requested project. Then `c` says that the project is
-- the same, or that it is renamed where the name is another one, and pins the signed name with the
-- certificate's ID.
pub check_inner_iff :
    (expected : Expected) (signed identity : Text) (require_signer : Bool)
    (given_issuer : Option Text) (source : Option SourceRepository) (c : Check)
    → (check_inner expected signed identity require_signer given_issuer source ≡ ok c) ↔ (
        IsAccepted expected signed identity require_signer given_issuer source
        × (c ≡ accepted_check expected signed identity source))
unfolding check_inner Passes
check_inner_iff expected signed identity require_signer given_issuer source c =
    (sound, λ (a, e). complete a ∙ ap ok (sym e))
  where
    sound :
        check_inner expected signed identity require_signer given_issuer source ≡ ok c
        → IsAccepted expected signed identity require_signer given_issuer source
          × (c ≡ accepted_check expected signed identity source)
    sound h = elim (Option-cases (parse expected.project)) [
      | inl e ↦ cc (rw (e, check_inner) at h)
      | inr (want, e) ↦ elim (Option-cases (parse signed)) [
        | inl f ↦ cc (rw (e, f, check_inner) at h)
        | inr (got, f) ↦
            let (p, q) =
              names_sound expected signed identity require_signer given_issuer source want got c
                (rw (e, f, check_inner) at h) in
            (
              record {
                want = want;
                got = got;
                requested_on_forge = e;
                signed_on_forge = f;
                same_host = p.0;
                same_subpath = p.1;
                issued = p.2;
                signer_inside = p.3;
                source_inside = p.4;
                identified = p.5;
              },
              q,
            )
      ]
    ]

    complete :
        (a : IsAccepted expected signed identity require_signer given_issuer source)
        → check_inner expected signed identity require_signer given_issuer source
          ≡ ok (accepted_check expected signed identity source)
    complete a =
        rw (a.requested_on_forge, a.signed_on_forge, check_inner)
          (names_complete expected signed identity require_signer given_issuer source a.want a.got
            (a.same_host, a.same_subpath, a.issued, a.signer_inside, a.source_inside, a.identified))
