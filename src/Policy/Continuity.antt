-- ===== src/Policy/Continuity.antt =====
-- `continuity` of src/install_policy.rs. The digest that an approval must name, SHA-256 of a JSON
-- value, is the parameter `approval_id`; the type of the requirements that it covers is another.

use packslip.Base.{
  Bool, true, false, not, ◌&&◌, ◌||◌, List, [], ◌∷◌, Option, none, some, any, if◌then◌else◌, Result,
  ok, err, ◌>>◌, refuse_if,
}
use packslip.Base.Text.{Text, codes, text_eq, text_eq?}
use packslip.Forge.Names.{repository_subpath, same_project}
use packslip.Forge.Pins.{ForgePin, continues}
use packslip.Policy.Record.{Role, release, list, Record, Reason, changes, forge_project}

pub data Error : Type 0 where
  unknown_role other_role other_project : Error
  change : Text → List Reason → Error

unfoldable pub role_of : Text → Option Role
role_of role =
    if text_eq role (codes "release")
    then some release
    else if text_eq role (codes "list")
    then some list
    else none

abbrev pub same_role : Role → Role → Bool
same_role release release = true
same_role list list = true
same_role _ _ = false

abbrev pub is_other_role : Role → Option Record → Bool
is_other_role role none = false
is_other_role role (some record_) = not (same_role record_.role role)

abbrev pub follows_pin : Text → Record → Option ForgePin → Option ForgePin → Bool
follows_pin project before (some before_pin) (some next_pin) =
    (forge_project before.project && forge_project project)
    && continues next_pin before_pin
    && text_eq? (repository_subpath before.project) (repository_subpath project)
follows_pin project before _ _ = false

unfoldable pub prior_project_matches : Text → Option Record → Record → Bool
prior_project_matches project none next = true
prior_project_matches project (some before) next =
    same_project before.project project
    || follows_pin project before before.repository next.repository

unfoldable pub is_approved : Text → List Text → Bool
is_approved id accepted = any (λ a. text_eq a id) accepted

abbrev pub settle : Text → List Text → List Reason → Result Error (Unit {0})
settle id accepted [] = ok tt
settle id accepted (r ∷ rs) = if is_approved id accepted then ok tt else err (change id (r ∷ rs))

module _ {Requirements : Type 0}
    (approval_id : Text → Text → Text → Record → Record → Requirements → Text) where
  abbrev pub compare_records :
      Text
      → Text
      → Text
      → Option Record
      → Record
      → Requirements
      → List Text
      → Result Error (Unit {0})
  compare_records project role bundle none next requirements accepted = ok tt
  compare_records project role bundle (some previous) next requirements accepted =
      settle (approval_id project role bundle previous next requirements) accepted
        (changes previous next)

  unfoldable pub continuity :
      Text
      → Text
      → Text
      → Option Record
      → Record
      → Requirements
      → List Text
      → Result Error (Unit {0})
  continuity project role bundle previous next requirements accepted = elim (role_of role) [
    | none ↦ err unknown_role
    | some expected ↦ do
      refuse_if (not (same_role next.role expected) || is_other_role expected previous) other_role
      refuse_if
          (not (text_eq next.project project) || not (prior_project_matches project previous next))
          other_project
      compare_records project role bundle previous next requirements accepted
  ]
