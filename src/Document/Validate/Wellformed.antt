-- ===== src/Document/Validate/Wellformed.antt =====
-- `Statement::validate` of src/model.rs against what the document's lists are to satisfy.
use mathlib.Core.Path.{subst}
use packslip.Base.{
  ◌≡◌, ◌⊎◌, inl, inr, refl, sym, true, false, not, ◌&&◌, arith, List, [], ◌∷◌, Option, none, some,
  any, find, All, All_imp, any-All, Pairwise, Bool-cases, Option-cases, ok, ok-injective,
  passed_eq_ok, refuse_if-eq-ok,
}
use packslip.Base.Text.{Text, text_eq, text_eq?, text_eq_iff, is_empty, contains_byte}
use packslip.Forge.Names.{text_eq?_iff}
use packslip.Document.{Subject, Bin, Artifact, Resource, Statement}
use packslip.Document.Names.{valid_relative_path, is_in, valid_token, command_name}
use packslip.Document.Invalid.{
  digest_of, artifact, check_extensions, is_none, each, check_subject, subject_names,
  ResourceSource, archive, asset, repo, exec, or_empty,
}
use packslip.Document.Artifacts.{
  names, check_artifact, check_token, check_bin, is_bin, is_same_build, bare_of, fields,
}
use packslip.Document.Resources.{source}
use packslip.Document.Resources.Only.{source-asset}
use packslip.Document.Checks.{
  then-eq-ok, if_some-ok, each-All, each_after-All, each_after-Pairwise, not_in_names, find-none,
}
use packslip.Document.Validate.{
  has_commit, program, check_source, check_resources, check_orphan, validate,
}
use packslip.Document.Validate.Accepted.{IsChecked-of, check_resources-assets}

-- An executable with a path and a bare name; that of an artifact that is no archive is its file.
pub record IsBin (a : Artifact) (b : Bin) : Type 0 where
  pub path_given : ¬ (b.path ≡ [])
  pub name_given : ¬ (b.name ≡ [])
  pub no_slash : contains_byte b'/' b.name ≡ false
  pub bare : command_name b.name ≡ b.name
  pub at_file : (file : Text) → bare_of a ≡ some file → b.path ≡ file

abbrev pub IsSameBuild : Artifact → Artifact → Type 0
IsSameBuild a b =
    (a.os ≡ b.os)
    × (a.arch ≡ b.arch)
    × (a.libc ≡ b.libc)
    × (a.variant ≡ b.variant)
    × (a.format ≡ b.format)

nonempty : (t : Text) → is_empty t ≡ false → ¬ (t ≡ [])
nonempty [] h e = cc
nonempty (c ∷ cs) h e = cc

IsBin-of : (a : Artifact) (b : Bin) → check_bin a b ≡ ok tt → IsBin a b
unfolding check_bin
IsBin-of a b h =
    let (p, h₁) = passed_eq_ok (is_empty b.path) _ _ h in
    let (n, h₂) = passed_eq_ok (is_empty b.name) _ _ h₁ in
    let (s, h₃) = passed_eq_ok (contains_byte b'/' b.name) _ _ h₂ in
    let (c, h₄) = passed_eq_ok (not (text_eq (command_name b.name) b.name)) _ _ h₃ in
    record {
      path_given = nonempty b.path p;
      name_given = nonempty b.name n;
      no_slash = s;
      bare = (text_eq_iff _ _).0 (ground arith);
      at_file = λ file e.
          let f = refuse_if-eq-ok _ _ (if_some-ok (bare_of a) _ h₄ file e) in
          (text_eq_iff _ _).0 (ground arith);
    }

-- What the artifact's own checks leave.
pub record IsArtifact (subject : List Subject) (a : Artifact) : Type 0 where
  pub described : any (λ s. text_eq s.name a.name) subject ≡ true
  pub formatted : (f : Text) × (a.format ≡ some f)
  pub tokens : All (λ x. (v : Text) → x.1 ≡ some v → valid_token v ≡ true) (fields a)
  pub executables : All (IsBin a) a.bin

IsSameBuild-false :
    (b a : Artifact) → is_none a.format ≡ false → is_same_build b a ≡ false → ¬ IsSameBuild b a
unfolding is_same_build
IsSameBuild-false b a f h (o, r, l, v, m) =
    let e₁ = (text_eq?_iff b.os a.os).1 o in
    let e₂ = (text_eq?_iff b.arch a.arch).1 r in
    let e₃ = (text_eq?_iff b.libc a.libc).1 l in
    let e₄ = (text_eq?_iff b.variant a.variant).1 v in
    let e₅ = (text_eq?_iff b.format a.format).1 m in
    let e₆ : is_none b.format ≡ false = rw m f in ground arith

format_given : (f : Option Text) → is_none f ≡ false → (g : Text) × (f ≡ some g)
format_given none h = cc
format_given (some g) h = (g, refl)

token_valid :
    (owner : Text) (x : Text × Option Text)
    → check_token owner x ≡ ok tt
    → (v : Text) → x.1 ≡ some v
    → valid_token v ≡ true
unfolding check_token
token_valid owner (field, value) h v e =
    let t = refuse_if-eq-ok _ _ (if_some-ok value _ h v e) in ground arith

module _ (subject : List Subject) (before : List Artifact) (a : Artifact)
    (h : check_artifact subject before a ≡ ok tt) where
  IsArtifact-of : IsArtifact subject a
  unfolding check_artifact
  IsArtifact-of =
      let (_, h₁) = passed_eq_ok (is_in a.name (names before)) _ _ h in
      let (_, h₂) = then-eq-ok (check_extensions (artifact a.name) a.extensions) _ h₁ in
      let (o, h₃) = passed_eq_ok (not (any (λ s. text_eq s.name a.name) subject)) _ _ h₂ in
      let (f, h₄) = passed_eq_ok (is_none a.format) _ _ h₃ in
      let (t, h₅) = then-eq-ok (each (check_token a.name) (fields a)) _ h₄ in
      let (b, h₆) = then-eq-ok (each (check_bin a) a.bin) _ h₅ in
      record {
        described = ground arith;
        formatted = format_given a.format f;
        tokens = All_imp (fields a) (token_valid a.name) (each-All _ _ t);
        executables = All_imp a.bin (λ x. IsBin-of a x) (each-All _ _ b);
      }

  IsArtifact-alone : All (λ b. ¬ (b.name ≡ a.name)) before × All (λ b. ¬ IsSameBuild b a) before
  unfolding check_artifact
  IsArtifact-alone =
      let (d, h₁) = passed_eq_ok (is_in a.name (names before)) _ _ h in
      let (_, h₂) = then-eq-ok (check_extensions (artifact a.name) a.extensions) _ h₁ in
      let (_, h₃) = passed_eq_ok (not (any (λ s. text_eq s.name a.name) subject)) _ _ h₂ in
      let (f, h₄) = passed_eq_ok (is_none a.format) _ _ h₃ in
      let (_, h₅) = then-eq-ok (each (check_token a.name) (fields a)) _ h₄ in
      let (_, h₆) = then-eq-ok (each (check_bin a) a.bin) _ h₅ in
      (
        not_in_names (λ b. b.name) a.name before d,
        elim (Option-cases (find (λ b. is_same_build b a) before)) [
          | inl e ↦ All_imp before (λ b. IsSameBuild-false b a f) (find-none _ before e)
          | inr (b, e) ↦ cc (if_some-ok _ _ h₆ b e)
        ],
      )

subject_alone :
    (before : List Subject) (s : Subject)
    → check_subject before s ≡ ok tt
    → All (λ b. ¬ (b.name ≡ s.name)) before
unfolding check_subject
subject_alone before s h =
    let (d, _) = passed_eq_ok (is_in s.name (subject_names before)) _ _ h in
    not_in_names (λ b. b.name) s.name before d

-- The text names a resource's asset.
abbrev pub IsAssetName : List Resource → Text → Type 0
IsAssetName resources t = any (λ r. text_eq? r.asset (some t)) resources ≡ true

check_source-assets :
    (s : Statement) (bins : List Text) (r : Resource) (from : ResourceSource) (added : List Text)
    → source r ≡ some from
    → check_source s bins r from ≡ ok added
    → All (λ t. r.asset ≡ some t) added
unfolding check_source
check_source-assets s bins r archive added e h =
    let (_, k) = passed_eq_ok (not (valid_relative_path (or_empty r.archive))) _ _ h in
    subst (All (λ t. r.asset ≡ some t)) (ok-injective k) tt
check_source-assets s bins r asset added e h =
    let (_, k) = passed_eq_ok (is_none (digest_of s (or_empty r.asset))) _ _ h in
    subst (All (λ t. r.asset ≡ some t)) (ok-injective k) (source-asset r e, tt)
check_source-assets s bins r repo added e h =
    let (_, h₁) = passed_eq_ok (not (valid_relative_path (or_empty r.repo))) _ _ h in
    let (_, k) = passed_eq_ok (not (has_commit s.predicate.source)) _ _ h₁ in
    subst (All (λ t. r.asset ≡ some t)) (ok-injective k) tt
check_source-assets s bins r exec added e h =
    let (_, k) = passed_eq_ok (not (is_bin bins (program r.exec))) _ _ h in
    subst (All (λ t. r.asset ≡ some t)) (ok-injective k) tt

assets_named :
    (s : Statement) (bins assets : List Text)
    → check_resources s bins [] s.predicate.resources ≡ ok assets
    → All (IsAssetName s.predicate.resources) assets
assets_named s bins assets h =
    check_resources-assets (IsAssetName s.predicate.resources) s bins [] s.predicate.resources
      assets
      (All_imp s.predicate.resources
        (λ r f added c.
          All_imp added
            (λ t e. f (λ q. text_eq? q.asset (some t)) ((text_eq?_iff r.asset (some t)).1 e))
            (check_source-assets s bins r c.from added c.one_source c.place))
        (any-All s.predicate.resources))
      tt h

is_in-All : (P : Text → Type 0) (t : Text) (ts : List Text) → All P ts → is_in t ts ≡ true → P t
is_in-All P t [] a h = cc
is_in-All P t (x ∷ xs) a h = elim (Bool-cases (text_eq t x)) [
  | inl e ↦ subst P (sym ((text_eq_iff t x).0 e)) a.0
  | inr e ↦ is_in-All P t xs a.1 (ground arith)
]

abbrev pub IsDescribed : Statement → Subject → Type 0
IsDescribed s t =
    (is_in t.name (names s.predicate.artifacts) ≡ true) ⊎ IsAssetName s.predicate.resources t.name

described :
    (s : Statement) (assets : List Text) (t : Subject)
    → All (IsAssetName s.predicate.resources) assets
    → check_orphan (names s.predicate.artifacts) assets t ≡ ok tt
    → IsDescribed s t
unfolding check_orphan
described s assets t a h =
    let k =
      refuse_if-eq-ok
        (not (is_in t.name (names s.predicate.artifacts)) && not (is_in t.name assets)) _ h in
    elim (Bool-cases (is_in t.name (names s.predicate.artifacts))) [
      | inl e ↦ inl e
      | inr e ↦ inr (is_in-All _ t.name assets a (ground arith))
    ]

module _ {V T : Type 0} (semver : Text → Option V) (timestamp : Text → Option T) where
  pub record IsWellformed (s : Statement) : Type 0 where
    pub subjects_distinct : Pairwise (λ a b. ¬ (a.name ≡ b.name)) s.subject
    pub some_artifact : ¬ (s.predicate.artifacts ≡ [])
    pub artifacts_distinct : Pairwise (λ a b. ¬ (a.name ≡ b.name)) s.predicate.artifacts
    pub builds_distinct : Pairwise (λ a b. ¬ IsSameBuild a b) s.predicate.artifacts
    pub artifacts : All (IsArtifact s.subject) s.predicate.artifacts
    pub subjects_described : All (IsDescribed s) s.subject

  -- A release that `validate` accepts is well formed.
  pub validate-IsWellformed : (s : Statement) → validate semver timestamp s ≡ ok tt → IsWellformed s
  validate-IsWellformed s h =
      let c = IsChecked-of semver timestamp s h in
      record {
        subjects_distinct = each_after-Pairwise check_subject _ subject_alone s.subject c.subjects;
        some_artifact = λ e. cc (rw e at c.some_artifact);
        artifacts_distinct =
            each_after-Pairwise (check_artifact s.subject) _
              (λ before a k. (IsArtifact-alone s.subject before a k).0) s.predicate.artifacts
              c.artifacts;
        builds_distinct =
            each_after-Pairwise (check_artifact s.subject) _
              (λ before a k. (IsArtifact-alone s.subject before a k).1) s.predicate.artifacts
              c.artifacts;
        artifacts =
            each_after-All (check_artifact s.subject) _ (IsArtifact-of s.subject) []
              s.predicate.artifacts c.artifacts;
        subjects_described =
            All_imp s.subject (λ t. described s c.assets t (assets_named s _ c.assets c.resources))
              (each-All _ s.subject c.orphans);
      }
