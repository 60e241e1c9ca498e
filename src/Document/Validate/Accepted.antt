-- ===== src/Document/Validate/Accepted.antt =====
-- `Statement::validate` of src/model.rs: what each of its stages checked once it passes.
use mathlib.Core.Path.{subst}
use packslip.Base.{
  ◌≡◌, ◌∙◌, ap, inl, inr, Option-cases, ok-injective, All, All-append, ◌++◌, false, not, List, [],
  ◌∷◌, Option, some, ok, bind-eq-ok, passed_eq_ok,
}
use packslip.Base.Text.{Text, codes, text_eq, is_empty}
use packslip.Forge.Grammar.{valid_project}
use packslip.Document.{Resource, Envelope, Statement}
use packslip.Document.Invalid.{
  ResourceSource, resource, each, each_after, check_subject, check_envelope, parse_version,
  check_timestamp, check_extensions, the_release, statement_type,
}
use packslip.Document.Artifacts.{names, check_token, check_artifact, check_requires, bin_names}
use packslip.Document.Resources.{source, label}
use packslip.Document.Checks.{then-eq-ok}
use packslip.Document.Validate.{
  the_source, check_target, check_env, check_owner, check_kind, scopes, check_source,
  check_resource, check_resources, check_orphan, validate, is_no_artifact, predicate_type,
}

pub check_envelope-ok :
    {P : Type 0} (expected : Text) (e : Envelope P)
    → check_envelope expected e ≡ ok tt
    → each_after check_subject [] e.subject ≡ ok tt
unfolding check_envelope
check_envelope-ok expected e h =
    let (_, h₁) = passed_eq_ok (not (text_eq e.kind statement_type)) _ _ h in
    let (_, h₂) = passed_eq_ok (not (text_eq e.predicate_type expected)) _ _ h₁ in h₂

-- The stages that look into the lists of a statement.
pub record IsChecked (s : Statement) : Type 0 where
  pub subjects : each_after check_subject [] s.subject ≡ ok tt
  pub some_artifact : is_no_artifact s.predicate.artifacts ≡ false
  pub artifacts : each_after (check_artifact s.subject) [] s.predicate.artifacts ≡ ok tt
  pub requires :
      each (check_requires (bin_names s.predicate.artifacts)) s.predicate.artifacts ≡ ok tt
  pub assets : List Text
  pub resources :
      check_resources s (bin_names s.predicate.artifacts) [] s.predicate.resources ≡ ok assets
  pub orphans : each (check_orphan (names s.predicate.artifacts) assets) s.subject ≡ ok tt

module _ {V T : Type 0} (semver : Text → Option V) (timestamp : Text → Option T) where
  pub IsChecked-of : (s : Statement) → validate semver timestamp s ≡ ok tt → IsChecked s
  unfolding validate
  IsChecked-of s h =
      let p = s.predicate in
      let bins = bin_names p.artifacts in
      let (e, h₁) = then-eq-ok (check_envelope predicate_type s) _ h in
      let (_, h₂) = passed_eq_ok (not (valid_project p.project)) _ _ h₁ in
      let (_, _, h₃) = bind-eq-ok (parse_version semver p.version) _ h₂ in
      let (_, _, h₄) =
        bind-eq-ok (check_timestamp timestamp (codes "published_at") p.published_at) _ h₃ in
      let (n, h₅) = passed_eq_ok (is_no_artifact p.artifacts) _ _ h₄ in
      let (_, h₆) = then-eq-ok (check_extensions the_release p.extensions) _ h₅ in
      let (a, h₇) = then-eq-ok (each_after (check_artifact s.subject) [] p.artifacts) _ h₆ in
      let (r, h₈) = then-eq-ok (each (check_requires bins) p.artifacts) _ h₇ in
      let (assets, q, o) = bind-eq-ok (check_resources s bins [] p.resources) _ h₈ in
      record {
        subjects = check_envelope-ok predicate_type s e;
        some_artifact = n;
        artifacts = a;
        requires = r;
        assets = assets;
        resources = q;
        orphans = o;
      }

-- The stages of the loop's body for a resource that adds the assets.
pub record IsResourceChecked (s : Statement) (bins : List Text) (r : Resource) (added : List Text)
    : Type 0 where
  pub some_kind : is_empty r.kind ≡ false
  pub target : check_target s.predicate.artifacts r ≡ ok tt
  pub from : ResourceSource
  pub one_source : source r ≡ some from
  pub place : check_source s bins r from ≡ ok added
  pub env : check_env r from ≡ ok tt
  pub owner : check_owner bins r ≡ ok tt
  pub of_kind : check_kind bins r from ≡ ok tt

the_source-ok :
    (r : Resource) (from : ResourceSource) → the_source r ≡ ok from → source r ≡ some from
the_source-ok r from h = elim (Option-cases (source r)) [
  | inl e ↦ cc (rw (e, the_source) at h)
  | inr (s, e) ↦ e ∙ ap some (ok-injective (rw (e, the_source) at h))
]

pub IsResourceChecked-of :
    (s : Statement) (bins : List Text) (r : Resource) (added : List Text)
    → check_resource s bins r ≡ ok added
    → IsResourceChecked s bins r added
unfolding check_resource
IsResourceChecked-of s bins r added h =
    let (k, h₁) = passed_eq_ok (is_empty r.kind) _ _ h in
    let (_, h₂) = then-eq-ok (check_extensions (resource (label r)) r.extensions) _ h₁ in
    let (t, h₃) = then-eq-ok (check_target s.predicate.artifacts r) _ h₂ in
    let (from, f, h₄) = bind-eq-ok (the_source r) _ h₃ in
    let (_, h₅) = then-eq-ok (each (check_token (label r)) (scopes r)) _ h₄ in
    let (a, p, h₆) = bind-eq-ok (check_source s bins r from) _ h₅ in
    let (e, h₇) = then-eq-ok (check_env r from) _ h₆ in
    let (o, h₈) = then-eq-ok (check_owner bins r) _ h₇ in
    let (q, h₉) = then-eq-ok (check_kind bins r from) _ h₈ in
    record {
      some_kind = k;
      target = t;
      from = from;
      one_source = the_source-ok r from f;
      place = p ∙ h₉;
      env = e;
      owner = o;
      of_kind = q;
    }

abbrev pub IsListed : Statement → List Text → Resource → Type 0
IsListed s bins r = (added : List Text) × IsResourceChecked s bins r added

-- Every resource passed the loop's body, and the assets are those that the resources added.
pub check_resources-All :
    (s : Statement) (bins assets : List Text) (resources : List Resource) (out : List Text)
    → check_resources s bins assets resources ≡ ok out
    → All (IsListed s bins) resources
unfolding check_resources
check_resources-All s bins assets [] out h = tt
check_resources-All s bins assets (r ∷ resources) out h =
    let (added, c, k) = bind-eq-ok (check_resource s bins r) _ h in
    (
      (added, IsResourceChecked-of s bins r added c),
      check_resources-All s bins (added ++ assets) resources out k,
    )

pub check_resources-assets :
    (P : Text → Type 0) (s : Statement) (bins assets : List Text) (resources : List Resource)
    (out : List Text)
    → All (λ r. (added : List Text) → IsResourceChecked s bins r added → All P added) resources
    → All P assets
    → check_resources s bins assets resources ≡ ok out
    → All P out
unfolding check_resources
check_resources-assets P s bins assets [] out f a h = subst (All P) (ok-injective h) a
check_resources-assets P s bins assets (r ∷ resources) out f a h =
    let (added, c, k) = bind-eq-ok (check_resource s bins r) _ h in
    check_resources-assets P s bins (added ++ assets) resources out f.1
      (All-append P added assets (f.0 added (IsResourceChecked-of s bins r added c)) a) k
