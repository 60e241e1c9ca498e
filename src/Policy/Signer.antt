-- ===== src/Policy/Signer.antt =====
-- `changes` of src/install_policy.rs: when the signer of a record continues the earlier one's.
use packslip.Base.{
  ◌≡◌, ◌↔◌, ◌⊎◌, inl, inr, refl, sym, ◌∙◌, true, false, Option, none, some, Bool-cases,
  Option-cases, arith,
}
use packslip.Base.Text.{Text, text_eq_iff}
use packslip.Forge.Names.{Repository, text_eq?_iff}
use packslip.Forge.Urls.{same_url, without_ref}
use packslip.Forge.Pins.{
  ForgePin, continues, external_signer, same_shared, same_path, same_workflow,
}
use packslip.Forge.Check.Same.{
  IsSameRepository, IsShared, IsSameFile, IsRenamed, same_repository_iff, external_signer-IsShared,
  continues_iff, same_path_iff,
}
use packslip.Policy.Record.{
  Scheme, sigstore_oidc, sigstore_key, Record, forge_project, same_scheme, signer_matches,
  signer_continues,
}

-- Neither is a workflow of another repository than its project's, or both are, of the same one.
abbrev pub IsSameOwner : Text → ForgePin → Text → ForgePin → Type 0
IsSameOwner previous p current q =
    (((r : Repository) → ¬ IsShared previous p r) × ((r : Repository) → ¬ IsShared current q r))
    ⊎ ((before : Repository) × (now : Repository) × IsShared previous p before
        × IsShared current q now
        × IsSameRepository before now)

abbrev pub IsSameAddress : Text → Text → Type 0
IsSameAddress previous current = same_url (without_ref previous) (without_ref current) ≡ true

pub data IsSameSigner (previous next : Record) : Type 0 where
  of_host :
      (before now : ForgePin)
      → previous.repository ≡ some before
      → next.repository ≡ some now
      → forge_project next.project ≡ false
      → IsRenamed before now
      → IsSameAddress previous.signer next.signer
      → IsSameSigner previous next
  of_forge :
      (before now : ForgePin)
      → previous.repository ≡ some before
      → next.repository ≡ some now
      → forge_project next.project ≡ true
      → IsRenamed before now
      → (next.pin_workflow ≡ true
          → IsSameOwner previous.signer before next.signer now
            × IsSameFile previous.signer next.signer)
      → IsSameSigner previous next
  by_address :
      previous.repository ≡ none
      → previous.scheme ≡ sigstore_oidc
      → IsSameAddress previous.signer next.signer
      → IsSameSigner previous next
  by_key :
      previous.repository ≡ none
      → previous.scheme ≡ sigstore_key
      → previous.signer ≡ next.signer
      → IsSameSigner previous next

pub same_scheme_iff : (s t : Scheme) → (same_scheme s t ≡ true) ↔ (s ≡ t)
same_scheme_iff sigstore_oidc sigstore_oidc = (λ h. refl, λ h. refl)
same_scheme_iff sigstore_key sigstore_key = (λ h. refl, λ h. refl)
same_scheme_iff sigstore_oidc sigstore_key = (λ h. cc, λ h. cc)
same_scheme_iff sigstore_key sigstore_oidc = (λ h. cc, λ h. cc)

scheme-cases : (s : Scheme) → (s ≡ sigstore_oidc) ⊎ (s ≡ sigstore_key)
scheme-cases sigstore_oidc = inl refl
scheme-cases sigstore_key = inr refl

none-IsShared :
    (identity : Text) (p : ForgePin)
    → (external_signer identity p ≡ none) ↔ ((r : Repository) → ¬ IsShared identity p r)
none-IsShared identity p = elim (Option-cases (external_signer identity p)) [
  | inl e ↦ (λ h r s. cc (sym e ∙ (external_signer-IsShared identity p r).1 s), λ h. e)
  | inr (r, e) ↦
      (λ h. cc (sym e ∙ h), λ h. absurd (h r ((external_signer-IsShared identity p r).0 e)))
]

same_shared_iff :
    (previous : Text) (p : ForgePin) (current : Text) (q : ForgePin)
    → (same_shared (external_signer previous p) (external_signer current q) ≡ true)
      ↔ IsSameOwner previous p current q
same_shared_iff previous p current q =
    let one = external_signer-IsShared previous p in
    let two = external_signer-IsShared current q in
    elim (Option-cases (external_signer previous p)) [
      | inl e ↦ elim (Option-cases (external_signer current q)) [
        | inl d ↦ (
          λ h. inl ((none-IsShared previous p).0 e, (none-IsShared current q).0 d),
          λ h. rw (e, d) refl,
        )
        | inr (now, d) ↦ (
          λ h. cc (rw (e, d) at h),
          λ h. elim h [
            | inl (_, n) ↦ absurd (n now ((two now).0 d))
            | inr (b, n, s, t, _) ↦ cc (sym e ∙ (one b).1 s)
          ],
        )
      ]
      | inr (before, e) ↦ elim (Option-cases (external_signer current q)) [
        | inl d ↦ (
          λ h. cc (rw (e, d) at h),
          λ h. elim h [
            | inl (n, _) ↦ absurd (n before ((one before).0 e))
            | inr (b, n, s, t, _) ↦ cc (sym d ∙ (two n).1 t)
          ],
        )
        | inr (now, d) ↦ (
          λ h. inr (
            before,
            now,
            (one before).0 e,
            (two now).0 d,
            (same_repository_iff before now).0 (rw (e, d) at h),
          ),
          λ h. elim h [
            | inl (n, _) ↦ absurd (n before ((one before).0 e))
            | inr (b, n, s, t, k) ↦ rw ((one b).1 s, (two n).1 t) ((same_repository_iff b n).1 k)
          ],
        )
      ]
    ]

-- Two workflows with pins are the same when the pins, their owners and their files are.
same_workflow_iff :
    (previous : Text) (p : ForgePin) (current : Text) (q : ForgePin)
    → (same_workflow previous (some p) current (some q) ≡ true)
      ↔ (IsSameOwner previous p current q × IsRenamed p q × IsSameFile previous current)
unfolding same_workflow
same_workflow_iff previous p current q =
    let owner = same_shared_iff previous p current q in
    let file = same_path_iff previous p current q in
    elim (Bool-cases (same_shared (external_signer previous p) (external_signer current q))) [
      | inl e ↦ (
        λ h. let (r, f) = file.0 (rw (e, same_workflow) at h) in (owner.0 e, r, f),
        λ (_, r, f). rw (e, same_workflow) (file.1 (r, f)),
      )
      | inr e ↦ (λ h. cc (rw (e, same_workflow) at h), λ (o, _, _). cc (sym e ∙ owner.1 o))
    ]

matches-IsSameSigner :
    (previous next : Record) (x y : Option ForgePin)
    → previous.repository ≡ x
    → next.repository ≡ y
    → signer_matches previous next x y ≡ true
    → IsSameSigner previous next
unfolding same_workflow same_path
matches-IsSameSigner previous next (some before) (some now) e d h =
    elim (Bool-cases (forge_project next.project)) [
      | inr f ↦
          let k = rw f at h in
          of_host before now e d f ((continues_iff before now).0 (ground (arith, k)))
            (ground (arith, k))
      | inl f ↦
          let k = rw f at h in
          of_forge before now e d f ((continues_iff before now).0 (ground (arith, k))) (λ w.
            let (o, _, g) =
              (same_workflow_iff previous.signer before next.signer now).0 (ground (arith, k, w)) in
            (o, g))
    ]
matches-IsSameSigner previous next (some before) none e d h = cc
matches-IsSameSigner previous next none y e d h = elim (scheme-cases previous.scheme) [
  | inl s ↦ by_address e s (rw s at h)
  | inr s ↦ by_key e s ((text_eq_iff previous.signer next.signer).0 (rw s at h))
]

pinned-matches :
    (previous next : Record) (before now : ForgePin)
    → forge_project next.project ≡ true
    → continues now before ≡ true
    → same_workflow previous.signer (some before) next.signer (some now) ≡ true
    → signer_matches previous next (some before) (some now) ≡ true
pinned-matches previous next before now f c w = ground (arith, f, c, w)

IsSameSigner-matches :
    (previous next : Record)
    → IsSameSigner previous next
    → signer_matches previous next previous.repository next.repository ≡ true
unfolding same_workflow same_path
IsSameSigner-matches previous next (of_host before now e d f r a) =
    rw (e, d, f, (continues_iff before now).1 r) a
IsSameSigner-matches previous next (of_forge before now e d f r g) =
    elim (Bool-cases next.pin_workflow) [
      | inr w ↦ rw (e, d, f, (continues_iff before now).1 r, w) refl
      | inl w ↦
          let (o, k) = g w in
          let same = (same_workflow_iff previous.signer before next.signer now).1 (o, r, k) in
          rw (e, d)
            (pinned-matches previous next before now f ((continues_iff before now).1 r) same)
    ]
IsSameSigner-matches previous next (by_address e s a) = rw (e, s) a
IsSameSigner-matches previous next (by_key e s k) =
    rw (e, s) ((text_eq_iff previous.signer next.signer).1 k)

-- The signer of a record continues the earlier record's exactly when the schemes and the issuers
-- are the same and one of four holds. Both records have a repository, on the same forge and with
-- the same ID, and the project is no forge's and the address is the same apart from the ref; or
-- they have such repositories and the project is a forge's, and where the new record pins its
-- workflow, both workflows are the projects' own or of one other repository, and their file is the
-- same, or the address where one is no such file. Or the earlier record has no repository and an
-- identity, whose address is the same apart from the ref; or it has no repository and a key, and
-- the signer's text is the same.
pub signer_continues_iff :
    (previous next : Record)
    → (signer_continues previous next ≡ true) ↔ (
        (previous.scheme ≡ next.scheme)
        × (previous.issuer ≡ next.issuer)
        × IsSameSigner previous next)
unfolding signer_continues
signer_continues_iff previous next =
    let scheme = same_scheme_iff previous.scheme next.scheme in
    let issuer = text_eq?_iff previous.issuer next.issuer in
    (
      λ h. (
        scheme.0 (ground arith),
        issuer.0 (ground arith),
        matches-IsSameSigner previous next previous.repository next.repository refl refl
            (ground arith),
      ),
      λ (s, i, m). ground (arith, scheme.1 s, issuer.1 i, IsSameSigner-matches previous next m),
    )
