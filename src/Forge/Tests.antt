-- ===== src/Forge/Tests.antt =====
-- Runs of src/forge.rs at concrete inputs.
use packslip.Base.{◌≡◌, ◌↔◌, refl, true, Option, some, ok, false}
use packslip.Base.Text.{
  Text, codes, drop, eq_ignore_ascii_case, nth_index, rsplit_once, split, split_once, starts_with,
  strip_prefix, take, text_eq, last_byte,
}
use packslip.Forge.Names.{named, parse, issuer, same_project, same_project_iff, signer_prefix}
use packslip.Forge.Urls.{repository_of, identity_has_prefix, same_url}
use packslip.Forge.Pins.{ForgePin, SourceRepository, same_path, external_signer}
use packslip.Forge.Lists.{list_url, github_list_path}
use packslip.Forge.Grammar.{valid_project}
use packslip.Forge.Check.{expected_for, pinned, Expected, check_inner, continues_signer, all_pins}
use packslip.Forge.Check.Accepted.{IsAccepted, accepted_check, check_inner_iff}
use packslip.Forge.Check.Continues.{Continues}
use packslip.Forge.Check.Signer.{continues_signer_iff}

abbrev hk : Text
hk = codes "github.com/jdx/hk"

abbrev hook : Text
hook = codes "github.com/jdx/hook"

same_project_iff_example :
    (same_project (codes "github.com/JDX/Hk") hk ≡ true)
    ↔ (named (codes "github.com/JDX/Hk") ≡ named hk)
same_project_iff_example = same_project_iff (codes "github.com/JDX/Hk") hk

abbrev hk_pin : ForgePin
hk_pin = record { project = hk; repository_id = codes "922514152" }

abbrev hook_pin : ForgePin
hook_pin = record { project = hook; repository_id = codes "922514152" }

abbrev hk_expected : Expected
hk_expected = pinned (some hk_pin) (expected_for hk)

abbrev signer : Text
signer = codes "https://github.com/jdx/hook/.github/workflows/release.yml@refs/tags/v3.0.0"

abbrev source : SourceRepository
source = record { uri = codes "https://github.com/jdx/hook"; id = some (codes "922514152") }

abbrev issuer_given : Option Text
issuer_given = some (codes "https://token.actions.githubusercontent.com")

-- The pinned repository has a new name.
check_inner_iff_example :
    (check_inner hk_expected hook signer true issuer_given (some source)
      ≡ ok (accepted_check hk_expected hook signer (some source)))
    ↔ (IsAccepted hk_expected hook signer true issuer_given (some source)
        × (accepted_check hk_expected hook signer (some source)
            ≡ accepted_check hk_expected hook signer (some source)))
check_inner_iff_example =
    check_inner_iff hk_expected hook signer true issuer_given (some source)
      (accepted_check hk_expected hook signer (some source))

renamed_passes :
    check_inner hk_expected hook signer true issuer_given (some source)
    ≡ ok (accepted_check hk_expected hook signer (some source))
unfolding check_inner parse split codes text_eq strip_prefix drop issuer identity_has_prefix
    signer_prefix nth_index take eq_ignore_ascii_case starts_with same_url all_pins
renamed_passes = refl

abbrev earlier_signer : Text
earlier_signer = codes "https://github.com/jdx/hk/.github/workflows/release.yml"

renamed_continues :
    continues_signer (accepted_check hk_expected hook signer (some source)) earlier_signer ≡ true
unfolding continues_signer all_pins repository_of strip_prefix codes starts_with rsplit_once
    nth_index external_signer split text_eq eq_ignore_ascii_case take same_path split_once
renamed_continues = refl

continues_signer_iff_example :
    (continues_signer (accepted_check hk_expected hook signer (some source)) earlier_signer ≡ true)
    ↔ Continues (accepted_check hk_expected hook signer (some source)) earlier_signer
continues_signer_iff_example =
    continues_signer_iff (accepted_check hk_expected hook signer (some source)) earlier_signer

list_urls :
    (list_url (codes "mise.jdx.dev") (codes "mise.jdx.dev")
      ≡ codes "https://mise.jdx.dev/.well-known/packslip.json")
    × (list_url (codes "a.dev") (codes "a.dev/b")
        ≡ codes "https://a.dev/.well-known/packslip/b.json")
    × (list_url (codes "m.dev") hk
        ≡ codes "https://m.dev/.well-known/packslip/github.com/jdx/hk.json")
    × (github_list_path (codes "github.com/o/r/tool")
        ≡ some (codes ".well-known/packslip/tool.json"))
unfolding list_url github_list_path text_eq codes split drop strip_prefix
list_urls = (refl, refl, refl, refl)

project_names :
    (valid_project hk ≡ true)
    × (valid_project (codes "mise.jdx.dev") ≡ true)
    × (valid_project (codes "localhost/tool") ≡ false)
    × (valid_project (codes "example.com/../tool") ≡ false)
unfolding valid_project text_eq codes split last_byte
project_names = (refl, refl, refl, refl)
