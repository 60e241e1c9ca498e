-- ===== src/Document/Resources/Specific.antt =====
-- `select_among` of src/model.rs against a direct reading of its documentation.
use mathlib.Core.Path.{subst}
use packslip.Base.{
  select-All_back, ◌≡◌, ◌↔◌, inl, inr, refl, ap, ◌∙◌, Bool, true, false, not, ◌||◌, arith, List, [],
  ◌∷◌, ◌++◌, any, any-All, all, select, All, All_imp, Bool-cases, eq_of_iff,
}
use packslip.Document.{Artifact, Resource}
use packslip.Document.Select.{Key, key_ltb, key_eq}
use packslip.Document.Resources.{ResourceIdentity, identity_eq, resource_fits}
use packslip.Document.Resources.Among.{
  specificity, max_key, best_key, competes, chosen, mark_all, all_identities, kept, select_among,
  is_preferred,
}
use packslip.Document.Resources.Preferred.{
  identity_eq_iff, any_found, select_same, chooses, flag, kept-tag, unmarked-tag, mark_all-tag,
  flag-any,
}

max_key_above :
    (a b : Key)
    → (key_ltb (max_key a b) a ≡ false)
      × ((k : Key) → key_ltb b k ≡ false → key_ltb (max_key a b) k ≡ false)
max_key_above (a, b) (c, d) = (ground arith, λ (e, f) h. ground arith)

key_eq_of : (a b : Key) → key_ltb a b ≡ false → key_ltb b a ≡ false → key_eq a b ≡ true
key_eq_of (a, b) (c, d) h k = ground arith

key_eq_above : (a b k : Key) → key_eq a b ≡ true → key_ltb b k ≡ false → key_ltb a k ≡ false
key_eq_above (a, b) (c, d) (e, f) h k = ground arith

best_key-above : (rs : List Resource) → All (λ o. key_ltb (best_key rs) (specificity o) ≡ false) rs
best_key-above [] = tt
best_key-above (r ∷ rs) =
    let a = max_key_above (specificity r) (best_key rs) in
    (a.0, All_imp rs (λ o h. a.1 (specificity o) h) (best_key-above rs))

best_key_least :
    (k : Key) (rs : List Resource)
    → All (λ o. key_ltb k (specificity o) ≡ false) rs
    → key_ltb k (best_key rs) ≡ false
best_key_least (a, b) [] h = ground arith
best_key_least k (r ∷ rs) h = elim (Bool-cases (key_ltb (specificity r) (best_key rs))) [
  | inl e ↦ rw e (best_key_least k rs h.1)
  | inr e ↦ rw e h.0
]

all_iff : {A : Type 0} (p : A → Bool) (xs : List A) → (all p xs ≡ true) ↔ All (λ x. p x ≡ true) xs
all_iff p [] = (λ h. tt, λ h. refl)
all_iff p (x ∷ xs) =
    let r = all_iff p xs in
    (λ h. (ground arith, r.0 (ground arith)), λ h. ground (arith, h.0, r.1 h.1))

select-All_forward :
    (P : Resource → Type 0) (keep : Resource → Bool) (rs : List Resource)
    → All (λ r. keep r ≡ true → P r) rs
    → All P (select keep rs)
select-All_forward P keep [] h = tt
select-All_forward P keep (r ∷ rs) h = elim (Bool-cases (keep r)) [
  | inl e ↦ rw e (h.0 e, select-All_forward P keep rs h.1)
  | inr e ↦ rw e (select-All_forward P keep rs h.1)
]

All-forall :
    {A B : Type 0} (P : B → A → Type 0) (xs : List A)
    → ((b : B) → All (P b) xs)
    → All (λ x. (b : B) → P b x) xs
All-forall P [] h = tt
All-forall P (x ∷ xs) h = ((λ b. (h b).0), All-forall P xs (λ b. (h b).1))

All_of : {A : Type 0} {P : A → Type 0} (xs : List A) → ((x : A) → P x) → All P xs
All_of [] h = tt
All_of (x ∷ xs) h = (h x, All_of xs h)

pair_All :
    {A : Type 0} (P Q : A → Type 0) (xs : List A) → All P xs → All Q xs → All (λ x. P x × Q x) xs
pair_All P Q [] h k = tt
pair_All P Q (x ∷ xs) h k = ((h.0, k.0), pair_All P Q xs h.1 k.1)

any-append :
    {A : Type 0} (p : A → Bool) (xs ys : List A) → any p (xs ++ ys) ≡ (any p xs || any p ys)
any-append p [] ys = refl
any-append p (x ∷ xs) ys = ground (arith, any-append p xs ys)

module _ (resources : List Resource) (artifact : Artifact)
    (identities_of : Resource → List ResourceIdentity) where
  abbrev entrant : ResourceIdentity → Resource → Bool
  entrant = competes resources artifact identities_of

  abbrev best : ResourceIdentity → Key
  best id = best_key (select (entrant id) resources)

  abbrev unbeaten : Resource → ResourceIdentity → Bool
  unbeaten r id =
      all (λ o. not (entrant id o) || not (key_ltb (specificity r) (specificity o))) resources

  -- What being among the resources gives.
  abbrev IsMember : Resource → Type 0
  IsMember r =
      ((id : ResourceIdentity) → entrant id r ≡ true → key_ltb (best id) (specificity r) ≡ false)
      × ((p : ResourceIdentity → Bool)
          → any p (identities_of r) ≡ true
          → any p (all_identities resources artifact identities_of resources) ≡ true)

  own_identities :
      (rs : List Resource)
      → All
          (λ r.
            (p : ResourceIdentity → Bool)
            → any p (identities_of r) ≡ true
            → any p (all_identities resources artifact identities_of rs) ≡ true)
          rs
  own_identities [] = tt
  own_identities (r ∷ rs) = (
    λ p h. any-append p (identities_of r) _ ∙ ground (arith, h),
    All_imp rs (λ o f p h. any-append p (identities_of r) _ ∙ ground (arith, f p h))
        (own_identities rs),
  )

  chosen-unbeaten :
      (id : ResourceIdentity) (r : Resource)
      → chooses resources artifact identities_of id r ≡ true
      → (entrant id r ≡ true) × (unbeaten r id ≡ true)
  unfolding chosen
  chosen-unbeaten id r h =
      let c : entrant id r ≡ true = ground arith in
      let q : key_eq (specificity r) (best id) ≡ true = ground arith in
      (
        c,
        (all_iff _ resources).1 (
            All_imp resources
              (λ o f. elim (Bool-cases (entrant id o)) [
                | inl e ↦
                    let k = key_eq_above (specificity r) (best id) (specificity o) q (f e) in
                    rw (e, k) refl
                | inr e ↦ rw e refl
              ])
              (select-All_back (λ o. key_ltb (best id) (specificity o) ≡ false) (entrant id)
                resources (best_key-above (select (entrant id) resources)))),
      )

  unbeaten-chosen :
      (id : ResourceIdentity) (r : Resource)
      → IsMember r
      → entrant id r ≡ true
      → unbeaten r id ≡ true
      → chooses resources artifact identities_of id r ≡ true
  unfolding chosen
  unbeaten-chosen id r m c u =
      let least : key_ltb (specificity r) (best id) ≡ false =
        best_key_least (specificity r) (select (entrant id) resources) (
          select-All_forward (λ o. key_ltb (specificity r) (specificity o) ≡ false) (entrant id)
            resources
            (All_imp resources (λ o q e. ground (arith, q, e)) ((all_iff _ resources).0 u))) in
      let q : key_eq (specificity r) (best id) ≡ true =
        key_eq_of (specificity r) (best id) least (m.0 id c) in
      rw (c, q) refl

  preferred :
      (r : Resource)
      → IsMember r
      → any
          (λ id. chooses resources artifact identities_of id r)
          (all_identities resources artifact identities_of resources)
        ≡ is_preferred resources artifact identities_of r
  unfolding is_preferred
  preferred r m =
      let own = identities_of r in
      let picks : ResourceIdentity → Bool = λ id. chooses resources artifact identities_of id r in
      let target = is_preferred resources artifact identities_of r in
      eq_of_iff _ _
        (λ h. any_found picks _ h (target ≡ true) (
          All_of (all_identities resources artifact identities_of resources) (λ id q.
            let (c, u) = chosen-unbeaten id r q in
            let found : any (unbeaten r) own ≡ true =
              any_found (identity_eq id) own (ground (arith, c)) _ (
                All_imp own
                  (λ x f e.
                    f (unbeaten r)
                      (subst (λ v. unbeaten r v ≡ true) ((identity_eq_iff id x).0 e) u))
                  (any-All own)) in
            ground (arith, c, found))))
        (λ h.
          let fits : resource_fits r artifact ≡ true = ground (arith, h) in
          let found : any (unbeaten r) own ≡ true = ground (arith, h) in
          m.1 picks (
            any_found (unbeaten r) own found _ (
              All_imp own
                (λ x f u.
                  let c = f (identity_eq x) ((identity_eq_iff x x).1 refl) in
                  f picks (unbeaten-chosen x r m (ground (arith, c, fits)) u))
                (any-All own))))

  members : All IsMember resources
  members =
      pair_All _ _ resources
        (All-forall (λ id r. entrant id r ≡ true → key_ltb (best id) (specificity r) ≡ false)
          resources
          (λ id.
            select-All_back (λ o. key_ltb (best id) (specificity o) ≡ false) (entrant id) resources
              (best_key-above (select (entrant id) resources))))
        (own_identities resources)

  -- `select_among` keeps, in their order, just the resources that fit and that are, for one of the
  -- things that they describe, such that no resource that fits and describes it too is more specific.
  pub select_among-preferred :
      select_among resources artifact identities_of
      ≡ select (is_preferred resources artifact identities_of) resources
  unfolding select_among
  select_among-preferred =
      let ids = all_identities resources artifact identities_of resources in
      let start : Resource → Bool = λ r. false in
      let after : Resource → Bool = λ r. flag resources artifact identities_of ids [] r false in
      ap
        (λ rows.
          kept resources artifact identities_of
            (mark_all resources artifact identities_of ids [] rows))
        (unmarked-tag resources artifact identities_of resources)
      ∙ ap (kept resources artifact identities_of)
          (mark_all-tag resources artifact identities_of ids [] start resources)
      ∙ kept-tag resources artifact identities_of after resources
      ∙ select_same after (is_preferred resources artifact identities_of) resources (
          All_imp resources
            (λ r m. flag-any resources artifact identities_of ids [] r false tt ∙ preferred r m)
            members)
