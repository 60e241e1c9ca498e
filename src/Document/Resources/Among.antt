-- ===== src/Document/Resources/Among.antt =====
-- `select_resources` of src/model.rs: of the resources for one thing, the most specific that fit.
use packslip.Base.{
  ◌+◌, Bool, true, false, not, ◌&&◌, ◌||◌, List, [], ◌∷◌, ◌++◌, any, all, select, if◌then◌else◌,
}
use packslip.Document.{Artifact, Resource, Statement}
use packslip.Document.Select.{Key, count, key_ltb, key_eq}
use packslip.Document.Artifacts.{sole_bin}
use packslip.Document.Resources.{ResourceIdentity, identity_eq, identities_for, resource_fits}

abbrev pub specificity : Resource → Key
specificity r = (count r.artifact, count r.os + count r.arch + count r.libc)

abbrev pub max_key : Key → Key → Key
max_key a b = if key_ltb a b then b else a

-- `max().unwrap_or_default()`
abbrev pub best_key : List Resource → Key
best_key [] = (0, 0)
best_key (r ∷ rs) = max_key (specificity r) (best_key rs)

abbrev pub has_identity : ResourceIdentity → List ResourceIdentity → Bool
has_identity id = any (identity_eq id)

module _ (resources : List Resource) (artifact : Artifact)
    (identities_of : Resource → List ResourceIdentity) where
  -- Whether the resource is one of `fitting`.
  abbrev pub competes : ResourceIdentity → Resource → Bool
  competes id r = has_identity id (identities_of r) && resource_fits r artifact

  unfoldable pub chosen : ResourceIdentity → Resource → Bool
  chosen id r = competes id r && key_eq (specificity r) (best_key (select (competes id) resources))

  -- The flags of `keep` stand with their resources.
  abbrev pub mark : ResourceIdentity → List (Resource × Bool) → List (Resource × Bool)
  mark id [] = []
  mark id ((r, keep) ∷ rows) = (r, keep || chosen id r) ∷ mark id rows

  -- The loop over the identities, with those seen.
  unfoldable pub mark_all :
      List ResourceIdentity
      → List ResourceIdentity
      → List (Resource × Bool)
      → List (Resource × Bool)
  unfolding chosen
  mark_all [] seen rows = rows
  mark_all (id ∷ ids) seen rows = elim (has_identity id seen) [
    | true ↦ mark_all ids seen rows
    | false ↦ mark_all ids (id ∷ seen) (mark id rows)
  ]

  abbrev pub all_identities : List Resource → List ResourceIdentity
  all_identities [] = []
  all_identities (r ∷ rs) = identities_of r ++ all_identities rs

  abbrev pub unmarked : List Resource → List (Resource × Bool)
  unmarked [] = []
  unmarked (r ∷ rs) = (r, false) ∷ unmarked rs

  abbrev pub kept : List (Resource × Bool) → List Resource
  kept [] = []
  kept ((r, keep) ∷ rows) = let rest = kept rows in if keep then r ∷ rest else rest

  unfoldable pub select_among : List Resource
  unfolding mark_all
  select_among = kept (mark_all (all_identities resources) [] (unmarked resources))

  -- A resource is preferred when it fits and, for one of the things that it describes, no resource
  -- that fits and describes the thing too is more specific.
  unfoldable pub is_preferred : Resource → Bool
  is_preferred r =
      resource_fits r artifact
      && any
          (λ id.
            all (λ o. not (competes id o) || not (key_ltb (specificity r) (specificity o)))
              resources)
          (identities_of r)

unfoldable pub select_resources : Statement → Artifact → List Resource
unfolding select_among
select_resources s artifact =
    select_among s.predicate.resources artifact (identities_for (sole_bin s.predicate.artifacts))
