-- ===== src/Document/Resources/Preferred.antt =====
-- `select_among` of src/model.rs: what its loop leaves of each flag.
use mathlib.Core.Path.{subst}
use packslip.Base.{
  ◌≡◌, ◌↔◌, inl, inr, refl, sym, ap, ◌∙◌, Bool, true, false, ◌||◌, arith, List, [], ◌∷◌, any,
  select, All, All_imp, Bool-cases,
}
use packslip.Base.Text.{Text, text_eq_iff}
use packslip.Document.{Artifact, Resource}
use packslip.Document.Resources.{ResourceIdentity, texts_eq, identity_eq}
use packslip.Document.Resources.Among.{has_identity, chosen, mark, mark_all, unmarked, kept}

texts_eq_iff : (a b : List Text) → (texts_eq a b ≡ true) ↔ (a ≡ b)
texts_eq_iff [] [] = (λ h. refl, λ h. refl)
texts_eq_iff [] (y ∷ b) = (λ h. cc, λ h. cc)
texts_eq_iff (x ∷ a) [] = (λ h. cc, λ h. cc)
texts_eq_iff (x ∷ a) (y ∷ b) =
    let t = text_eq_iff x y in let r = texts_eq_iff a b in ground (arith, t, r)

same_identity :
    (k k' : Text) (p p' : List Text)
    → k ≡ k'
    → p ≡ p'
    → ◌≡◌ {A = ResourceIdentity} (record { kind = k; parts = p }) (record { kind = k'; parts = p' })
same_identity k k' p p' e f = rw (e, f) refl

pub identity_eq_iff : (a b : ResourceIdentity) → (identity_eq a b ≡ true) ↔ (a ≡ b)
identity_eq_iff a b = (
  λ h.
      same_identity a.kind b.kind a.parts b.parts ((text_eq_iff a.kind b.kind).0 (ground arith))
        ((texts_eq_iff a.parts b.parts).0 (ground arith)),
  λ h.
      let k = (text_eq_iff a.kind b.kind).1 (ap (λ x. x.kind) h) in
      let p = (texts_eq_iff a.parts b.parts).1 (ap (λ x. x.parts) h) in ground arith,
)

pub any_found :
    {A : Type 0} (p : A → Bool) (xs : List A)
    → any p xs ≡ true
    → (Q : Type 0) → All (λ x. p x ≡ true → Q) xs
    → Q
any_found p [] h Q a = cc
any_found p (x ∷ xs) h Q a = elim (Bool-cases (p x)) [
  | inl e ↦ a.0 e
  | inr e ↦ any_found p xs (ground arith) Q a.1
]

abbrev pub tag : (Resource → Bool) → List Resource → List (Resource × Bool)
tag f [] = []
tag f (r ∷ rs) = (r, f r) ∷ tag f rs

tag_same :
    {f g : Resource → Bool} (rs : List Resource)
    → ((r : Resource) → f r ≡ g r)
    → tag f rs ≡ tag g rs
tag_same [] h = refl
tag_same (r ∷ rs) h = rw (h r, tag_same rs h) refl

pub select_same :
    (f g : Resource → Bool) (rs : List Resource)
    → All (λ r. f r ≡ g r) rs
    → select f rs ≡ select g rs
select_same f g [] h = refl
select_same f g (r ∷ rs) h = rw (h.0, select_same f g rs h.1) refl

module _ (resources : List Resource) (artifact : Artifact)
    (identities_of : Resource → List ResourceIdentity) where
  abbrev pub chooses : ResourceIdentity → Resource → Bool
  chooses = chosen resources artifact identities_of

  -- The flag of one resource after the loop.
  abbrev pub flag : List ResourceIdentity → List ResourceIdentity → Resource → Bool → Bool
  flag [] seen r keep = keep
  flag (id ∷ ids) seen r keep = elim (has_identity id seen) [
    | true ↦ flag ids seen r keep
    | false ↦ flag ids (id ∷ seen) r (keep || chosen resources artifact identities_of id r)
  ]

  flag-seen :
      (id : ResourceIdentity) (ids seen : List ResourceIdentity) (r : Resource) (keep : Bool)
      → has_identity id seen ≡ true
      → flag (id ∷ ids) seen r keep ≡ flag ids seen r keep
  flag-seen id ids seen r keep e = rw (e, flag) refl

  flag-new :
      (id : ResourceIdentity) (ids seen : List ResourceIdentity) (r : Resource) (keep : Bool)
      → has_identity id seen ≡ false
      → flag (id ∷ ids) seen r keep ≡ flag ids (id ∷ seen) r (keep || chooses id r)
  flag-new id ids seen r keep e = rw (e, flag) refl

  pub kept-tag :
      (f : Resource → Bool) (rs : List Resource)
      → kept resources artifact identities_of (tag f rs) ≡ select f rs
  kept-tag f [] = refl
  kept-tag f (r ∷ rs) = rw (kept-tag f rs) refl

  pub unmarked-tag :
      (rs : List Resource) → unmarked resources artifact identities_of rs ≡ tag (λ r. false) rs
  unmarked-tag [] = refl
  unmarked-tag (r ∷ rs) = ap (◌∷◌ (r, false)) (unmarked-tag rs)

  mark-tag :
      (id : ResourceIdentity) (f : Resource → Bool) (rs : List Resource)
      → mark resources artifact identities_of id (tag f rs) ≡ tag (λ r. f r || chooses id r) rs
  mark-tag id f [] = refl
  mark-tag id f (r ∷ rs) = ap (◌∷◌ (r, f r || chooses id r)) (mark-tag id f rs)

  all_seen :
      (id : ResourceIdentity) (ids seen : List ResourceIdentity) (f : Resource → Bool)
      (rs : List Resource)
      → has_identity id seen ≡ true
      → mark_all resources artifact identities_of (id ∷ ids) seen (tag f rs)
        ≡ mark_all resources artifact identities_of ids seen (tag f rs)
  unfolding mark_all
  all_seen id ids seen f rs e = rw (e, mark_all) refl

  all_new :
      (id : ResourceIdentity) (ids seen : List ResourceIdentity) (f : Resource → Bool)
      (rs : List Resource)
      → has_identity id seen ≡ false
      → mark_all resources artifact identities_of (id ∷ ids) seen (tag f rs)
        ≡ mark_all resources artifact identities_of ids
            (id ∷ seen)
            (tag (λ r. f r || chooses id r) rs)
  unfolding mark_all
  all_new id ids seen f rs e = rw (e, mark-tag id f rs, mark_all) refl

  pub mark_all-tag :
      (ids seen : List ResourceIdentity) (f : Resource → Bool) (rs : List Resource)
      → mark_all resources artifact identities_of ids seen (tag f rs)
        ≡ tag (λ r. flag ids seen r (f r)) rs
  unfolding mark_all
  mark_all-tag [] seen f rs = refl
  mark_all-tag (id ∷ ids) seen f rs = elim (Bool-cases (has_identity id seen)) [
    | inl e ↦
        all_seen id ids seen f rs e
        ∙ mark_all-tag ids seen f rs
        ∙ tag_same rs (λ r. sym (flag-seen id ids seen r (f r) e))
    | inr e ↦
        all_new id ids seen f rs e
        ∙ mark_all-tag ids (id ∷ seen) (λ r. f r || chooses id r) rs
        ∙ tag_same rs (λ r. sym (flag-new id ids seen r (f r) e))
  ]

  pub flag-any :
      (ids seen : List ResourceIdentity) (r : Resource) (keep : Bool)
      → All (λ s. chooses s r ≡ true → keep ≡ true) seen
      → flag ids seen r keep ≡ (keep || any (λ id. chooses id r) ids)
  flag-any [] seen r keep h = ground arith
  flag-any (id ∷ ids) seen r keep h = elim (Bool-cases (has_identity id seen)) [
    | inl e ↦
        let found : chooses id r ≡ true → keep ≡ true = any_found (identity_eq id) seen e _ (
          All_imp seen
            (λ s f q.
              subst (λ u. chooses u r ≡ true → keep ≡ true) (sym ((identity_eq_iff id s).0 q)) f)
            h) in
        let rest = flag-any ids seen r keep h in
        flag-seen id ids seen r keep e ∙ rest ∙ ground (arith, found)
    | inr e ↦
        let rest =
          flag-any ids (id ∷ seen) r (keep || chooses id r)
            (λ q. ground (arith, q), All_imp seen (λ s f q. ground (arith, f q)) h) in
        flag-new id ids seen r keep e ∙ rest ∙ ground arith
  ]
