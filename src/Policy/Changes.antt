-- ===== src/Policy/Changes.antt =====
-- `changes` of src/install_policy.rs against a description of what a new record keeps.
use mathlib.Core.Option.{some-injective}
use packslip.Base.{
  ◌≡◌, ◌↔◌, refl, sym, ap, ◌∙◌, Bool, true, false, not, ◌&&◌, List, [], ◌∷◌, ◌++◌, Option, none,
  some, if◌then◌else◌, arith,
}
use packslip.Base.Text.{Text, text_eq, text_eq_iff}
use packslip.Policy.Provenance.{retains_provenance}
use packslip.Policy.Record.{
  Scheme, sigstore_oidc, sigstore_key, Attestor, vendor, repackager, Record, Reason,
  is_key_replacement, is_demotion, key_reasons, signer_reasons, signer_continues, changes, when,
  both_key, compare_keys, key_changed, oidc_to_key, workflow_unpinned, vendor_to_repackager,
}
use packslip.Policy.Signer.{IsSameSigner, signer_continues_iff}

-- Nothing that the earlier record vouched for is given up.
pub record IsContinued (previous next : Record) : Type 0 where
  pub no_key_replacement : previous.scheme ≡ sigstore_oidc → next.scheme ≡ sigstore_oidc
  pub same_key :
      (k : Text)
      → previous.scheme ≡ sigstore_key
      → next.scheme ≡ sigstore_key
      → previous.key ≡ some k
      → next.key ≡ some k
  pub same_scheme : previous.scheme ≡ next.scheme
  pub same_issuer : previous.issuer ≡ next.issuer
  pub same_signer : IsSameSigner previous next
  pub still_pinned : previous.pin_workflow ≡ true → next.pin_workflow ≡ true
  pub same_attestor : previous.attested_by ≡ vendor → next.attested_by ≡ vendor
  pub provenance_kept : retains_provenance previous.provenance next.provenance ≡ true

append_nil : {A : Type 0} (xs ys : List A) → (xs ++ ys ≡ []) ↔ ((xs ≡ []) × (ys ≡ []))
append_nil [] ys = (λ h. (refl, h), λ (a, b). b)
append_nil (x ∷ xs) ys = (λ h. cc, λ (a, b). cc)

when_nil : (b : Bool) (r : Reason) → (when b r ≡ []) ↔ (b ≡ false)
when_nil true r = (λ h. cc, λ h. cc)
when_nil false r = (λ h. refl, λ h. refl)

is_key_replacement_iff :
    (s t : Scheme) → (is_key_replacement s t ≡ false) ↔ (s ≡ sigstore_oidc → t ≡ sigstore_oidc)
is_key_replacement_iff sigstore_oidc sigstore_key = (λ h. cc, λ h. cc (h refl))
is_key_replacement_iff sigstore_oidc sigstore_oidc = (λ h e. refl, λ h. refl)
is_key_replacement_iff sigstore_key t = (λ h e. cc, λ h. refl)

is_demotion_iff : (a b : Attestor) → (is_demotion a b ≡ false) ↔ (a ≡ vendor → b ≡ vendor)
is_demotion_iff vendor repackager = (λ h. cc, λ h. cc (h refl))
is_demotion_iff vendor vendor = (λ h e. refl, λ h. refl)
is_demotion_iff repackager b = (λ h e. cc, λ h. refl)

key_nil :
    (s t : Scheme) (a b : Option Text)
    → ((if both_key s t then compare_keys a b else []) ≡ [])
      ↔ ((k : Text) → s ≡ sigstore_key → t ≡ sigstore_key → a ≡ some k → b ≡ some k)
key_nil sigstore_oidc t a b = (λ h k e. cc, λ h. refl)
key_nil sigstore_key sigstore_oidc a b = (λ h k e f. cc, λ h. refl)
key_nil sigstore_key sigstore_key none b = (λ h k e f g. cc, λ h. refl)
key_nil sigstore_key sigstore_key (some a) none = (λ h. cc, λ h. cc (h a refl refl refl))
key_nil sigstore_key sigstore_key (some a) (some b) = (
  λ h k e f g.
      let q =
        (text_eq_iff a b).0
          (ground (arith, (when_nil (not (text_eq a b)) (key_changed a b)).0 h)) in
      ap some (sym q) ∙ g,
  λ h.
      let q : text_eq a b ≡ true =
        (text_eq_iff a b).1 (some-injective _ _ (sym (h a refl refl refl))) in
      rw q refl,
)

signer_nil :
    (b : Bool) (xs ys : List Reason) (z : Reason)
    → ((if not b then xs ++ (ys ++ (z ∷ [])) else []) ≡ []) ↔ (b ≡ true)
signer_nil true xs ys z = (λ h. refl, λ h. refl)
signer_nil false xs ys z =
    (λ h. let (_, k) = (append_nil xs _).0 h in let (_, l) = (append_nil ys _).0 k in cc, λ h. cc)

still_pinned_iff : (a b : Bool) → ((a && not b) ≡ false) ↔ (a ≡ true → b ≡ true)
still_pinned_iff a b = ground arith

kept_iff : (b : Bool) → (not b ≡ false) ↔ (b ≡ true)
kept_iff b = ground arith

-- The reasons to ask about a new record are none exactly when it keeps all that the earlier one
-- vouched for: an OIDC identity is not replaced by a key, a known key stays the same, the signer
-- continues, a pinned workflow stays pinned, a vendor's attestation stays the vendor's, and no
-- build provenance is dropped.
pub changes_nil_iff :
    (previous next : Record) → (changes previous next ≡ []) ↔ IsContinued previous next
unfolding changes key_reasons signer_reasons
changes_nil_iff previous next = (sound, complete)
  where
    sound : changes previous next ≡ [] → IsContinued previous next
    sound h =
        let (a, h₁) =
          (append_nil (when (is_key_replacement previous.scheme next.scheme) oidc_to_key) _).0 h in
        let (b, h₂) = (append_nil (key_reasons previous next) _).0 h₁ in
        let (c, h₃) =
          (append_nil
              (if not (signer_continues previous next) then signer_reasons previous next else [])
              _).0
            h₂ in
        let (d, h₄) =
          (append_nil (when (previous.pin_workflow && not next.pin_workflow) workflow_unpinned) _).0
            h₃ in
        let (e, f) =
          (append_nil
              (when (is_demotion previous.attested_by next.attested_by) vendor_to_repackager) _).0
            h₄ in
        let signer =
          (signer_continues_iff previous next).0
            ((signer_nil (signer_continues previous next) _ _ _).0 c) in
        record {
          no_key_replacement =
              (is_key_replacement_iff previous.scheme next.scheme).0 ((when_nil _ _).0 a);
          same_key = (key_nil previous.scheme next.scheme previous.key next.key).0 b;
          same_scheme = signer.0;
          same_issuer = signer.1;
          same_signer = signer.2;
          still_pinned =
              (still_pinned_iff previous.pin_workflow next.pin_workflow).0 ((when_nil _ _).0 d);
          same_attestor =
              (is_demotion_iff previous.attested_by next.attested_by).0 ((when_nil _ _).0 e);
          provenance_kept =
              (kept_iff (retains_provenance previous.provenance next.provenance)).0
                ((when_nil _ _).0 f);
        }

    complete : IsContinued previous next → changes previous next ≡ []
    complete c =
        (append_nil (when (is_key_replacement previous.scheme next.scheme) oidc_to_key) _).1 (
          (when_nil _ _).1
              ((is_key_replacement_iff previous.scheme next.scheme).1 c.no_key_replacement),
          (append_nil (key_reasons previous next) _).1 (
            (key_nil previous.scheme next.scheme previous.key next.key).1 c.same_key,
            (append_nil
                  (if not (signer_continues previous next)
                    then signer_reasons previous next
                    else [])
                  _).1
                (
                  (signer_nil (signer_continues previous next) _ _ _).1 (
                      (signer_continues_iff previous next).1
                        (c.same_scheme, c.same_issuer, c.same_signer)),
                  (append_nil
                        (when (previous.pin_workflow && not next.pin_workflow) workflow_unpinned)
                        _).1
                      (
                        (when_nil _ _).1 (
                            (still_pinned_iff previous.pin_workflow next.pin_workflow).1
                              c.still_pinned),
                        (append_nil
                              (when (is_demotion previous.attested_by next.attested_by)
                                vendor_to_repackager)
                              _).1
                            (
                              (when_nil _ _).1 (
                                  (is_demotion_iff previous.attested_by next.attested_by).1
                                    c.same_attestor),
                              (when_nil _ _).1 (
                                  (kept_iff
                                      (retains_provenance previous.provenance next.provenance)).1
                                    c.provenance_kept),
                            ),
                      ),
                ),
          ),
        )
