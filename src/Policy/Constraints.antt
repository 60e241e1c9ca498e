-- ===== src/Policy/Constraints.antt =====
-- `Constraints`, `admin_constraints` and `check_constraints` of src/install_policy.rs. The entries
-- of the administrators' files are read already, the source repository that the bundle's certificate
-- records is an argument, and SHA-256 a parameter.
use mathlib.Core.Path.{subst}
use mathlib.Core.Option.{some-injective}
use packslip.Base.{
  if◌then◌else◌, ℕ, suc, ◌≡◌, ◌↔◌, ◌⊎◌, inl, inr, refl, sym, ap, ◌∙◌, Bool, true, false, not, ◌||◌,
  List, [], ◌∷◌, Option, none, some, All, any, Option-cases, Bool-cases, Result, ok, err, ◌>>◌,
  refuse_if, refuse_if-eq-ok, bind-eq-ok, arith,
}
use packslip.Base.Text.{Text, text_eq?}
use packslip.Forge.Names.{text_eq?_iff, same_project}
use packslip.Forge.Pins.{SourceRepository}
use packslip.Forge.Urls.{same_url, identity_has_prefix}
use packslip.Fingerprint
use packslip.Fingerprint.{Fingerprint, of_signer, verify, verify_iff}
use packslip.Policy.Record.{Record}

pub record Constraints : Type 0 where
  pub pins : List Text
  pub pubkey : Option Text
  pub issuer : Option Text
  pub identity : Option Text
  pub identity_prefix : Option Text

pub data Error : Type 0 where
  invalid_fingerprint other_signer other_identity : ℕ → Error

-- The entries of one administrator's file that are for the project: at most one may be.
unfoldable pub matching : Text → List (Text × Constraints) → List Constraints
matching project [] = []
matching project ((name, c) ∷ entries) =
    let rest = matching project entries in if same_project name project then c ∷ rest else rest

abbrev add_matching : List Constraints → Option (List Constraints) → Option (List Constraints)
add_matching [] rest = rest
add_matching (c ∷ []) none = none
add_matching (c ∷ []) (some cs) = some (c ∷ cs)
add_matching (c ∷ d ∷ more) rest = none

-- `admin_constraints`, on the files' entries in the order in which they are read; `none` is the
-- refusal of a file with two entries for the project.
unfoldable pub admin_constraints :
    Text → List (List (Text × Constraints)) → Option (List Constraints)
unfolding matching
admin_constraints project [] = some []
admin_constraints project (file ∷ files) =
    add_matching (matching project file) (admin_constraints project files)

abbrev cons_parsed :
    Result Fingerprint.ParseError Fingerprint
    → Option (List Fingerprint)
    → Option (List Fingerprint)
cons_parsed (ok f) (some fs) = some (f ∷ fs)
cons_parsed (ok f) none = none
cons_parsed (err e) fs = none

unfoldable pub parse_pins : List Text → Option (List Fingerprint)
parse_pins [] = some []
parse_pins (p ∷ ps) = cons_parsed (Fingerprint.parse p) (parse_pins ps)

abbrev is_wrong : (Text → Bool) → Option Text → Bool
is_wrong fits none = false
is_wrong fits (some s) = not (fits s)

abbrev is_ok : {E : Type 0} → Result E (Unit {0}) → Bool
is_ok (ok _) = true
is_ok (err _) = false

module _ (sha256 : Text → Text) (source : Option SourceRepository) (record_ : Record) where
  abbrev check_parsed : ℕ → Option (List Fingerprint) → Result Error (Unit {0})
  check_parsed index none = err (invalid_fingerprint index)
  check_parsed index (some fs) =
      refuse_if (not (any (λ f. is_ok (verify sha256 f record_.issuer source)) fs))
        (other_signer index)

  unfoldable pub check_pins : ℕ → List Text → Result Error (Unit {0})
  check_pins index [] = ok tt
  check_pins index (p ∷ ps) = check_parsed index (parse_pins (p ∷ ps))

  unfoldable pub check_constraint : ℕ → Constraints → Result Error (Unit {0})
  unfolding check_pins
  check_constraint index c = do
    check_pins index c.pins
    refuse_if
        (is_wrong (λ s. text_eq? record_.issuer (some s)) c.issuer
          || is_wrong (λ s. same_url record_.signer s) c.identity
          || is_wrong (λ s. identity_has_prefix record_.signer s) c.identity_prefix)
        (other_identity index)

  -- The loop over the constraints, from an index.
  unfoldable pub check_from : ℕ → List Constraints → Result Error (Unit {0})
  unfolding check_constraint
  check_from index [] = ok tt
  check_from index (c ∷ cs) = do check_constraint index c; check_from (suc index) cs

  abbrev pub check_constraints : List Constraints → Result Error (Unit {0})
  check_constraints cs = check_from 0 cs

  abbrev Among : Fingerprint → List Fingerprint → Type 0
  Among f [] = ⊥
  Among f (g ∷ gs) = (f ≡ g) ⊎ Among f gs

  -- Without pins nothing is asked; with pins all can be read, and one is the certificate's.
  abbrev pub IsPinned : List Text → Type 0
  IsPinned [] = Unit
  IsPinned (p ∷ ps) =
      (fs : List Fingerprint) × (f : Fingerprint) × (parse_pins (p ∷ ps) ≡ some fs)
      × Among f fs
      × (of_signer sha256 record_.issuer source ≡ some f)

  pub record IsSatisfied (c : Constraints) : Type 0 where
    pub pinned : IsPinned c.pins
    pub issued : (s : Text) → c.issuer ≡ some s → record_.issuer ≡ some s
    pub signed : (s : Text) → c.identity ≡ some s → same_url record_.signer s ≡ true
    pub prefixed :
        (s : Text) → c.identity_prefix ≡ some s → identity_has_prefix record_.signer s ≡ true

  is_wrong_iff :
      (fits : Text → Bool) (x : Option Text)
      → (is_wrong fits x ≡ false) ↔ ((s : Text) → x ≡ some s → fits s ≡ true)
  is_wrong_iff fits none = (λ h s e. cc, λ h. refl)
  is_wrong_iff fits (some t) = (
    λ h s e. subst (λ u. fits u ≡ true) (some-injective _ _ e) (ground arith),
    λ h. ap not (h t refl),
  )

  is_ok_iff : {E : Type 0} (r : Result E (Unit {0})) → (is_ok r ≡ true) ↔ (r ≡ ok tt)
  is_ok_iff (ok tt) = (λ h. refl, λ h. refl)
  is_ok_iff (err e) = (λ h. cc, λ h. cc)

  Among-iff :
      (fs : List Fingerprint)
      → (any (λ f. is_ok (verify sha256 f record_.issuer source)) fs ≡ true)
        ↔ ((f : Fingerprint) × Among f fs × (of_signer sha256 record_.issuer source ≡ some f))
  Among-iff [] = (λ h. cc, λ (f, a, e). absurd a)
  Among-iff (g ∷ gs) = elim (Bool-cases (is_ok (verify sha256 g record_.issuer source))) [
    | inl e ↦ (
      λ h. (g, inl refl, (verify_iff sha256 g record_.issuer source).0 ((is_ok_iff _).0 e)),
      λ h. rw e refl,
    )
    | inr e ↦ (
      λ h. let (f, a, k) = (Among-iff gs).0 (rw e at h) in (f, inr a, k),
      λ (f, a, k). elim a [
        | inl q ↦ absurd (
            cc (
              sym e
              ∙ (is_ok_iff _).1 ((verify_iff sha256 g record_.issuer source).1 (k ∙ ap some q))))
        | inr b ↦ rw e ((Among-iff gs).1 (f, b, k))
      ],
    )
  ]

  check_pins_iff : (index : ℕ) (pins : List Text) → (check_pins index pins ≡ ok tt) ↔ IsPinned pins
  unfolding check_pins
  check_pins_iff index [] = (λ h. tt, λ h. refl)
  check_pins_iff index (p ∷ ps) = elim (Option-cases (parse_pins (p ∷ ps))) [
    | inl e ↦ (λ h. cc (rw (e, check_pins) at h), λ (fs, f, q, a, k). cc (sym e ∙ q))
    | inr (fs, e) ↦ (
      λ h.
          let found =
            refuse_if-eq-ok (not (any (λ f. is_ok (verify sha256 f record_.issuer source)) fs)) _
              (rw (e, check_pins) at h) in
          let (f, a, k) = (Among-iff fs).0 (ground (arith, found)) in (fs, f, e, a, k),
      λ (gs, f, q, a, k).
          let same : gs ≡ fs = some-injective _ _ (sym q ∙ e) in
          rw (e, (Among-iff fs).1 (f, subst (Among f) same a, k), check_pins) refl,
    )
  ]

  check_constraint_iff :
      (index : ℕ) (c : Constraints) → (check_constraint index c ≡ ok tt) ↔ IsSatisfied c
  unfolding check_constraint
  check_constraint_iff index c =
      let i = is_wrong_iff (λ s. text_eq? record_.issuer (some s)) c.issuer in
      let d = is_wrong_iff (λ s. same_url record_.signer s) c.identity in
      let x = is_wrong_iff (λ s. identity_has_prefix record_.signer s) c.identity_prefix in
      let pins = check_pins_iff index c.pins in
      (
        λ h.
            let (u, a, b) = bind-eq-ok (check_pins index c.pins) _ h in
            let fine = refuse_if-eq-ok _ _ b in
            record {
              pinned = pins.0 a;
              issued =
                  λ s e. (text_eq?_iff record_.issuer (some s)).0 (i.0 (ground (arith, fine)) s e);
              signed = d.0 (ground (arith, fine));
              prefixed = x.0 (ground (arith, fine));
            },
        λ s.
            rw
              (
                pins.1 s.pinned,
                i.1 (λ t e. (text_eq?_iff record_.issuer (some t)).1 (s.issued t e)),
                d.1 s.signed,
                x.1 s.prefixed,
                check_constraint,
              )
              refl,
      )

  -- A record passes exactly when it satisfies every constraint: where a constraint names signer
  -- fingerprints, all of them can be read and one is that of the certificate's issuer and
  -- repository ID; and the issuer, the identity and the identity's prefix are the record's where
  -- the constraint names them.
  pub check_from_iff :
      (index : ℕ) (cs : List Constraints) → (check_from index cs ≡ ok tt) ↔ All IsSatisfied cs
  unfolding check_from
  check_from_iff index [] = (λ h. tt, λ h. refl)
  check_from_iff index (c ∷ cs) =
      let one = check_constraint_iff index c in
      let rest = check_from_iff (suc index) cs in
      (
        λ h.
            let (u, a, b) =
              bind-eq-ok (check_constraint index c) (λ _. check_from (suc index) cs) h in
            (one.0 a, rest.0 b),
        λ (a, b). rw (one.1 a, check_from) (rest.1 b),
      )

module _ (P : Constraints → Type 0) where
  matching-All :
      (project : Text) (file : List (Text × Constraints))
      → All P (matching project file)
      → All (λ (name, c). same_project name project ≡ true → P c) file
  unfolding matching
  matching-All project [] h = tt
  matching-All project ((name, c) ∷ entries) h = elim (Bool-cases (same_project name project)) [
    | inl e ↦ let k = rw (e, matching) at h in ((λ z. k.0), matching-All project entries k.1)
    | inr e ↦ ((λ z. cc (sym e ∙ z)), matching-All project entries (rw (e, matching) at h))
  ]

  add_matching-All :
      (m : List Constraints) (rest : Option (List Constraints)) (cs : List Constraints)
      → add_matching m rest ≡ some cs
      → All P cs
      → All P m × ((r : List Constraints) × (rest ≡ some r) × All P r)
  add_matching-All [] rest cs h a = (tt, (cs, h, a))
  add_matching-All (c ∷ []) none cs h a = cc
  add_matching-All (c ∷ []) (some r) cs h a =
      let b = subst (All P) (sym (some-injective _ _ h)) a in ((b.0, tt), (r, refl, b.1))
  add_matching-All (c ∷ d ∷ more) rest cs h a = cc

  -- What holds of every constraint that is read holds of every entry for the project, in whatever
  -- case it spells the name, in every administrator's file: none is left out.
  pub admin_constraints-All :
      (project : Text) (files : List (List (Text × Constraints))) (cs : List Constraints)
      → admin_constraints project files ≡ some cs
      → All P cs
      → All (λ file. All (λ (name, c). same_project name project ≡ true → P c) file) files
  unfolding admin_constraints
  admin_constraints-All project [] cs h a = tt
  admin_constraints-All project (file ∷ files) cs h a =
      let (m, (r, e, b)) =
        add_matching-All (matching project file) (admin_constraints project files) cs h a in
      (matching-All project file m, admin_constraints-All project files r e b)
