-- ===== src/Forge/Check/Same.antt =====
-- When src/forge.rs takes repositories, pins and workflows for the same.
use mathlib.Core.Option.{some-injective}
use packslip.Base.{
  ◌≡◌, ◌↔◌, ◌⊎◌, inl, inr, refl, sym, ap, ◌∙◌, true, none, some, Bool-cases, Option-cases, arith,
}
use packslip.Base.Text.{Text, text_eq_iff, to_ascii_lowercase, eq_ignore_ascii_case_iff}
use packslip.Forge.Names.{ForgeName, Repository, parse, same_repository}
use packslip.Forge.Urls.{same_url, without_ref, repository_of, workflow_path}
use packslip.Forge.Pins.{ForgePin, continues, external_signer, same_place, same_path}

-- One repository of a forge, whose name's case does not matter.
abbrev pub IsSameRepository : Repository → Repository → Type 0
IsSameRepository (host, name) (host', name') =
    (host ≡ host') × (to_ascii_lowercase name ≡ to_ascii_lowercase name')

-- The identity is of a workflow in a repository that is not the pinned project's.
abbrev pub IsShared : Text → ForgePin → Repository → Type 0
IsShared identity p shared =
    (repository_of identity ≡ some shared)
    × ((name : ForgeName) × (parse p.project ≡ some name)
        × (¬ IsSameRepository shared (name.host, name.repository)))

-- The same file in the repository; where a signer is not such a file, the same URL.
abbrev pub IsSameFile : Text → Text → Type 0
IsSameFile previous identity =
    ((file : Text × Text) × (workflow_path previous ≡ some file)
      × (workflow_path identity ≡ some file))
    ⊎ (((workflow_path previous ≡ none) ⊎ (workflow_path identity ≡ none))
        × (same_url (without_ref previous) (without_ref identity) ≡ true))

pub same_repository_iff : (a b : Repository) → (same_repository a b ≡ true) ↔ IsSameRepository a b
unfolding same_repository
same_repository_iff (host, name) (host', name') =
    ground (arith, text_eq_iff host host', eq_ignore_ascii_case_iff name name')

-- Whether the identity's workflow is shared, and of which repository.
pub external_signer-IsShared :
    (identity : Text) (p : ForgePin) (shared : Repository)
    → (external_signer identity p ≡ some shared) ↔ IsShared identity p shared
unfolding external_signer
external_signer-IsShared identity p shared = elim (Option-cases (repository_of identity)) [
  | inl e ↦ (λ h. cc (rw (e, external_signer) at h), λ (q, _). cc (sym e ∙ q))
  | inr (signer, e) ↦ elim (Option-cases (parse p.project)) [
    | inl f ↦ (λ h. cc (rw (e, f, external_signer) at h), λ (_, (_, q, _)). cc (sym f ∙ q))
    | inr (name, f) ↦
        let same = same_repository_iff signer (name.host, name.repository) in
        elim (Bool-cases (same_repository signer (name.host, name.repository))) [
          | inl b ↦ (
            λ h. cc (rw (e, f, b, external_signer) at h),
            λ (q, (n, r, d)).
                let s : signer ≡ shared = some-injective _ _ (sym e ∙ q) in
                let m : name ≡ n = some-injective _ _ (sym f ∙ r) in
                absurd (d (rw (s, m) at (same.0 b))),
          )
          | inr b ↦ (
            λ h.
                let s : signer ≡ shared = some-injective _ _ (rw (e, f, b, external_signer) at h) in
                (rw e (ap some s), (name, f, λ k. cc (sym b ∙ same.1 (rw (sym s) at k)))),
            λ (q, _). rw (e, f, b, external_signer) (sym e ∙ q),
          )
        ]
  ]
]

pub same_place_iff :
    (previous identity : Text)
    → (same_place previous identity (workflow_path previous) (workflow_path identity) ≡ true)
      ↔ IsSameFile previous identity
same_place_iff previous identity = elim (Option-cases (workflow_path previous)) [
  | inl e ↦ (
    λ h. inr (inl e, rw e at h),
    λ h. elim h [ inl (f, q, _) ↦ cc (sym e ∙ q) | inr (_, u) ↦ rw e u ],
  )
  | inr ((host, path), e) ↦ elim (Option-cases (workflow_path identity)) [
    | inl d ↦ (
      λ h. inr (inr d, rw (e, d) at h),
      λ h. elim h [ inl (f, _, q) ↦ cc (sym d ∙ q) | inr (_, u) ↦ rw (e, d) u ],
    )
    | inr ((host', path'), d) ↦
        let hosts = text_eq_iff host host' in
        let paths = text_eq_iff path path' in
        (
          λ h.
              let k = rw (e, d) at h in
              let a : host ≡ host' = hosts.0 (ground arith) in
              let b : path ≡ path' = paths.0 (ground arith) in inl ((host, path), e, rw (a, b) d),
          λ h. elim h [
            | inl (f, q, r) ↦
                let same : (host, path) ≡ (host', path') =
                  some-injective _ _ (sym e ∙ q ∙ sym r ∙ d) in
                let a : host ≡ host' = ap (λ (x : Text × Text). x.0) same in
                let b : path ≡ path' = ap (λ (x : Text × Text). x.1) same in
                rw (e, d, hosts.1 a, paths.1 b) refl
            | inr (n, _) ↦ elim n [ inl z ↦ cc (sym e ∙ z) | inr z ↦ cc (sym d ∙ z) ]
          ],
        )
  ]
]

-- The repository is one of a forge, is on the same one and has the same ID.
abbrev pub IsRenamed : ForgePin → ForgePin → Type 0
IsRenamed p q =
    (before : ForgeName) × (now : ForgeName) × (parse p.project ≡ some before)
    × (parse q.project ≡ some now)
    × (before.host ≡ now.host)
    × (p.repository_id ≡ q.repository_id)

pub continues_iff : (p q : ForgePin) → (continues q p ≡ true) ↔ IsRenamed p q
unfolding continues
continues_iff p q = elim (Option-cases (parse p.project)) [
  | inl e ↦ (λ h. cc (rw (e, continues) at h), λ (b, n, r, _, _, _). cc (sym e ∙ r))
  | inr (before, e) ↦ elim (Option-cases (parse q.project)) [
    | inl d ↦ (λ h. cc (rw (e, d, continues) at h), λ (b, n, _, r, _, _). cc (sym d ∙ r))
    | inr (now, d) ↦
        let hosts = text_eq_iff before.host now.host in
        let ids = text_eq_iff p.repository_id q.repository_id in
        (
          λ h.
              let k = rw (e, d, continues) at h in
              (before, now, e, d, hosts.0 (ground arith), ids.0 (ground arith)),
          λ (b, n, r, t, u, v).
              let x : b ≡ before = some-injective _ _ (sym r ∙ e) in
              let y : n ≡ now = some-injective _ _ (sym t ∙ d) in
              rw (e, d, hosts.1 (rw (x, y) at u), ids.1 v, continues) refl,
        )
  ]
]

pub same_path_iff :
    (previous : Text) (p : ForgePin) (identity : Text) (q : ForgePin)
    → (same_path previous (some p) identity (some q) ≡ true)
      ↔ (IsRenamed p q × IsSameFile previous identity)
unfolding same_path
same_path_iff previous p identity q =
    let file = same_place_iff previous identity in
    let pins = continues_iff p q in
    (
      λ h. (pins.0 (ground (arith, h)), file.0 (ground (arith, h))),
      λ (r, f). rw (pins.1 r, same_path) (file.1 f),
    )
