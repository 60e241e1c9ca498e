-- ===== src/Document/ReleaseLists/Wellformed.antt =====
-- `ReleaseListStatement::validate` of src/model.rs against what a list is to satisfy.
use packslip.Base.{
  ◌≡◌, inl, inr, ap, ◌∙◌, ok-injective, Bool, true, false, not, arith, List, [], Option, some, All,
  Pairwise, Option-cases, ok, bind-eq-ok, passed_eq_ok, refuse_if-eq-ok,
}
use packslip.Base.Text.{Text, codes}
use packslip.Forge.Grammar.{valid_project}
use packslip.Document.{ReleaseRef, ReleaseListStatement}
use packslip.Document.Names.{is_in}
use packslip.Document.Invalid.{
  the_release_list, release, each_after, is_none, check_extensions, parse_version, check_timestamp,
  check_envelope, digest_of,
}
use packslip.Document.Checks.{
  then-eq-ok, if_some-ok, each_after-All, each_after-Pairwise, not_in_names,
}
use packslip.Document.ReleaseLists.{
  releases_predicate_type, versions, check_release, check_latest, validate_list,
}

check_timestamp-some :
    {T : Type 0} (timestamp : Text → Option T) (field value : Text) (t : T)
    → check_timestamp timestamp field value ≡ ok t
    → timestamp value ≡ some t
unfolding check_timestamp
check_timestamp-some timestamp field value t h = elim (Option-cases (timestamp value)) [
  | inl e ↦ cc (rw (e, check_timestamp) at h)
  | inr (x, e) ↦ e ∙ ap some (ok-injective (rw (e, check_timestamp) at h))
]

module _ {V T : Type 0} (semver : Text → Option V) (timestamp : Text → Option T)
    (later : T → T → Bool) where
  -- The list expires after it was made; its entries have distinct versions, each with a digest of
  -- its bundle, and the recommendation is one of them.
  pub record IsWellformedList (list : ReleaseListStatement) : Type 0 where
    pub generated : T
    pub expires : T
    pub made : timestamp list.predicate.generated_at ≡ some generated
    pub ends : timestamp list.predicate.expires_at ≡ some expires
    pub in_order : later expires generated ≡ true
    pub versions_distinct : Pairwise (λ a b. ¬ (a.version ≡ b.version)) list.predicate.releases
    pub digests :
        All (λ r. (d : Text) × (digest_of list r.packslip ≡ some d)) list.predicate.releases
    pub recommendation :
        (latest : Text)
        → list.predicate.latest ≡ some latest
        → is_in latest (versions list.predicate.releases) ≡ true

  module _ (list : ReleaseListStatement) (before : List ReleaseRef) (r : ReleaseRef)
      (h : check_release semver timestamp later list before r ≡ ok tt) where
    release_parts :
        (is_in r.version (versions before) ≡ false)
        × ((d : Text) × (digest_of list r.packslip ≡ some d))
    unfolding check_release
    release_parts =
        let (_, _, h₁) = bind-eq-ok (parse_version semver r.version) _ h in
        let (d, h₂) = passed_eq_ok (is_in r.version (versions before)) _ _ h₁ in
        let (_, h₃) = then-eq-ok (check_extensions (release r.version) r.extensions) _ h₂ in
        let (_, _, h₄) =
          bind-eq-ok (check_timestamp timestamp (codes "published_at") r.published_at) _ h₃ in
        let o = refuse_if-eq-ok (is_none (digest_of list r.packslip)) _ h₄ in
        (d, elim (Option-cases (digest_of list r.packslip)) [ inl e ↦ cc (rw e at o) | inr x ↦ x ])

  latest_listed :
      (releases : List ReleaseRef) (latest : Text)
      → check_latest semver timestamp later releases latest ≡ ok tt
      → is_in latest (versions releases) ≡ true
  unfolding check_latest
  latest_listed releases latest h =
      let (_, _, k) = bind-eq-ok (parse_version semver latest) _ h in
      let l = refuse_if-eq-ok (not (is_in latest (versions releases))) _ k in ground (arith, l)

  -- A release list that `validate` accepts is well formed.
  pub validate_list-IsWellformedList :
      (list : ReleaseListStatement)
      → validate_list semver timestamp later list ≡ ok tt
      → IsWellformedList list
  unfolding validate_list
  validate_list-IsWellformedList list h =
      let p = list.predicate in
      let (_, h₁) = then-eq-ok (check_envelope releases_predicate_type list) _ h in
      let (_, h₂) = passed_eq_ok (not (valid_project p.project)) _ _ h₁ in
      let (generated, g, h₃) =
        bind-eq-ok (check_timestamp timestamp (codes "generated_at") p.generated_at) _ h₂ in
      let (expires, e, h₄) =
        bind-eq-ok (check_timestamp timestamp (codes "expires_at") p.expires_at) _ h₃ in
      let (o, h₅) = passed_eq_ok (not (later expires generated)) _ _ h₄ in
      let (_, h₆) = then-eq-ok (check_extensions the_release_list p.extensions) _ h₅ in
      let (r, h₇) =
        then-eq-ok (each_after (check_release semver timestamp later list) [] p.releases) _ h₆ in
      record {
        generated = generated;
        expires = expires;
        made = check_timestamp-some timestamp (codes "generated_at") p.generated_at generated g;
        ends = check_timestamp-some timestamp (codes "expires_at") p.expires_at expires e;
        in_order = ground (arith, o);
        versions_distinct =
            each_after-Pairwise (check_release semver timestamp later list) _
              (λ before x k.
                not_in_names (λ b. b.version) x.version before (release_parts list before x k).0)
              p.releases r;
        digests =
            each_after-All (check_release semver timestamp later list) _
              (λ before x k. (release_parts list before x k).1) [] p.releases r;
        recommendation =
            λ latest q. latest_listed p.releases latest (if_some-ok p.latest _ h₇ latest q);
      }
