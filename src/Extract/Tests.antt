-- ===== src/Extract/Tests.antt =====
-- Runs of the checks of src/install_extract.rs at concrete inputs.
use packslip.Base.{
  ℕ, ◌^◌, ◌<◌, ◌≡◌, ◌≢◌, ◌↔◌, refl, false, List, [], ◌∷◌, length, some, All, ok, err, arith,
  if◌then◌else◌,
}
use packslip.Base.Text.{
  Text, codes, text_eq, split, strip_prefix, starts_with, to_ascii_lowercase, last_byte, upper,
}
use packslip.Extract.Names.Split.{join}
use packslip.Extract.Names.{
  Components, refused, invalid_path, reserved_path, ownership_path, link_escapes, parts, path,
  link_path, is_device, is_owned, pop,
}
use packslip.Extract.Names.Safe.{IsSafe, path-IsSafe}
use packslip.Extract.Names.Links.{depth, link_path-IsSafe}
use packslip.Extract.Names.Canonical.{Fits, path-join_iff, path-join-path}
use packslip.Extract.Entries.{
  Kind, file, dir, symlink, Entry, default_limits, prefix, mapped, validate, path_eq,
}
use packslip.Extract.Entries.Prefix.{IsUnder, HasChild, prefix_iff}
use packslip.Extract.Entries.Validate.{IsUnpackable, validate_iff}
use packslip.Extract.Entries.Inside.{IsInside, validate-IsInside}
use packslip.Extract.Resolve.{Look, components, resolved_link}
use packslip.Extract.Resolve.Physical.{IsPhysical, resolved_link-IsPhysical}

abbrev app : Text
app = codes "app"

abbrev spelled : Text
spelled = codes "./app//bin/tool"

abbrev tool_path : Components
tool_path = app ∷ codes "bin" ∷ codes "tool" ∷ []

spelled-path : path spelled ≡ ok tool_path
unfolding path split text_eq codes is_device is_owned strip_prefix starts_with to_ascii_lowercase
    last_byte upper
spelled-path = refl

tool_path-IsSafe : (tool_path ≢ []) × All IsSafe tool_path
tool_path-IsSafe = path-IsSafe spelled spelled-path

path-join-path_example : path (join b'/' tool_path) ≡ ok tool_path
path-join-path_example = path-join-path spelled spelled-path

path-join_iff_example : (path (join b'/' tool_path) ≡ ok tool_path) ↔ Fits tool_path
path-join_iff_example = path-join_iff tool_path

refusals :
    (path (codes "a/../b") ≡ err (refused invalid_path))
    × (path (codes "a/nul.txt") ≡ err (refused reserved_path))
    × (path (codes "a/.PackSlip/x") ≡ err (refused ownership_path))
    × (link_path (app ∷ []) (codes "../../etc") ≡ err (refused link_escapes))
unfolding path split text_eq codes is_device is_owned strip_prefix starts_with to_ascii_lowercase
    last_byte upper link_path pop
refusals = (refl, refl, refl, refl)

abbrev bin : Components
bin = app ∷ codes "bin" ∷ []

abbrev target : Text
target = codes "../lib/tool.so"

abbrev target_path : Components
target_path = app ∷ codes "lib" ∷ codes "tool.so" ∷ []

target-link_path : link_path bin target ≡ ok target_path
unfolding path split text_eq codes is_device is_owned strip_prefix starts_with to_ascii_lowercase
    last_byte upper link_path pop
target-link_path = refl

bin-IsSafe : All IsSafe bin
bin-IsSafe = let s = tool_path-IsSafe.1 in (s.0, (s.1.0, tt))

link_path-IsSafe_example :
    (target_path ≢ [])
    × All IsSafe target_path
    × (depth (length bin) (parts target) ≡ some (length target_path))
link_path-IsSafe_example = link_path-IsSafe bin target bin-IsSafe target-link_path

-- A listing with one directory at its root, a program, a library and a link to it.
abbrev entry_of : Components → Kind → ℕ → Entry
entry_of p kind size = record { path = p; kind = kind; size = size; executable = false }

abbrev root_entry : Entry
root_entry = entry_of (app ∷ []) dir 0

abbrev other_entries : List Entry
other_entries =
    entry_of tool_path file 100
    ∷ entry_of target_path file 200
    ∷ entry_of (app ∷ codes "bin" ∷ codes "tool.so" ∷ []) (symlink target) 0
    ∷ []

abbrev listing : List Entry
listing = root_entry ∷ other_entries

abbrev fold : Text → Text
fold = to_ascii_lowercase

prefix_iff_example :
    (prefix listing ≡ some (app ∷ [])) ↔ (All (IsUnder app) listing × HasChild app listing)
prefix_iff_example = prefix_iff app [] root_entry other_entries refl

limits-u64 : default_limits.bytes < 2 ^ 64
limits-u64 = omega arith

listing-passes : validate fold listing default_limits (some (app ∷ [])) ≡ ok tt
unfolding validate mapped link_path pop path split text_eq codes is_device is_owned strip_prefix
    starts_with to_ascii_lowercase last_byte upper
listing-passes = refl

validate_iff_example :
    (validate fold listing default_limits (some (app ∷ [])) ≡ ok tt)
    ↔ IsUnpackable fold listing default_limits (some (app ∷ []))
validate_iff_example = validate_iff fold listing default_limits (some (app ∷ [])) limits-u64

listing-IsSafe : All (λ e. All IsSafe e.path) listing
unfolding path split text_eq codes is_device is_owned strip_prefix starts_with to_ascii_lowercase
    last_byte upper
listing-IsSafe =
    let (ne, linked, d) = link_path-IsSafe_example in
    (
      (bin-IsSafe.0, tt),
      (tool_path-IsSafe.1, (linked, ((path-IsSafe (codes "app/bin/tool.so") refl).1, tt))),
    )

validate-IsInside_example :
    All
      (λ e.
        mapped e.path (some (app ∷ [])) ≢ []
        → IsInside (some (app ∷ [])) e.path (mapped e.path (some (app ∷ []))) e.kind)
      listing
validate-IsInside_example =
    validate-IsInside fold listing default_limits (some (app ∷ [])) limits-u64 listing-IsSafe
      listing-passes

-- `lib` is a link to `real/lib`; nothing else is a link.
unfoldable look : Components → Look
unfolding components path_eq codes text_eq split
look p =
    if path_eq p (codes "lib" ∷ []) then Look.link (components (codes "real/lib")) else Look.other

abbrev real_path : Components
real_path = codes "real" ∷ codes "lib" ∷ codes "a" ∷ []

real-resolved : resolved_link look (codes "lib" ∷ codes "a" ∷ []) ≡ ok real_path
unfolding resolved_link look components path_eq codes text_eq split
real-resolved = refl

resolved_link-IsPhysical_example :
    IsPhysical look real_path × (resolved_link look real_path ≡ ok real_path)
resolved_link-IsPhysical_example =
    resolved_link-IsPhysical look (codes "lib" ∷ codes "a" ∷ []) real-resolved
