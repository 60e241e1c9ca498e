-- ===== src/Forge/Lists.antt =====
-- Where release lists are kept: `project_host`, `list_url` and `github_list_path` of src/model.rs.
use packslip.Base.{[], ◌∷◌, ◌++◌, Option, none, some, length, ◌==◌, if◌then◌else◌}
use packslip.Base.Text.{Text, codes, text_eq, is_empty, split, drop}
use packslip.Extract.Names.{first_or_empty}
use packslip.Forge.Names.{repository, repository_subpath}

abbrev pub project_host : Text → Text
project_host project = first_or_empty (split b'/' project)

-- `trim_start_matches('/')`
unfoldable trim_slashes : Text → Text
trim_slashes [] = []
trim_slashes (c ∷ s) = let rest = trim_slashes s in if c == b'/' then rest else c ∷ s

abbrev list_path : Text → Text → Text
list_path publisher project =
    let host = project_host project in
    if text_eq publisher host then trim_slashes (drop (length host) project) else project

unfoldable pub list_url : Text → Text → Text
unfolding trim_slashes
list_url publisher project =
    let path = list_path publisher project in
    let base = codes "https://" ++ (publisher ++ codes "/.well-known/packslip") in
    if is_empty path then base ++ codes ".json" else base ++ (b'/' ∷ (path ++ codes ".json"))

abbrev github_path : Option Text → Text
github_path none = codes ".well-known/packslip.json"
github_path (some tool) = codes ".well-known/packslip/" ++ (tool ++ codes ".json")

unfoldable pub github_list_path : Text → Option Text
unfolding repository repository_subpath
github_list_path project = elim (repository project) [
  | none ↦ none
  | some _ ↦ some (github_path (repository_subpath project))
]
