-- ===== src/Forge/Urls.antt =====
-- Identities and URLs in src/forge.rs: `repository_span`, `identity_has_prefix`, `same_url`,
-- `without_ref`, `repository_of` and `workflow_path`.
use packslip.Base.{
  ℕ, ◌+◌, ◌≡◌, refl, Bool, true, not, ◌&&◌, [], ◌∷◌, Option, none, some, length, leb, ◌==◌,
  if◌then◌else◌, arith,
}
use packslip.Base.Text.{
  Text, codes, text_eq, starts_with, strip_prefix, take, drop, nth_index, split_slashes, split_once,
  rsplit_once, eq_ignore_ascii_case,
}
use packslip.Forge.Names.{Repository, github, gitlab}

abbrev index_or_end : Text → Option ℕ → ℕ
index_or_end s none = length s
index_or_end s (some i) = i

abbrev gitlab_length : Text → Option (Text × Text) → ℕ
gitlab_length s none = length s
gitlab_length s (some (before, _)) = length before

-- The start and the end of the repository's name.
unfoldable pub repository_span : Text → Option (ℕ × ℕ)
repository_span url = elim (strip_prefix url (codes "https://github.com/")) [
  | some rest ↦ some (19, 19 + index_or_end rest (nth_index b'/' 1 rest))
  | none ↦ elim (strip_prefix url (codes "https://gitlab.com/")) [
    | some rest ↦ some (19, 19 + gitlab_length rest (split_slashes rest))
    | none ↦ none
  ]
]

abbrev slice : ℕ → ℕ → Text → Text
slice start end s = drop start (take end s)

abbrev has_prefix_at : Option (ℕ × ℕ) → Text → Text → Bool
has_prefix_at none identity prefix = starts_with identity prefix
has_prefix_at (some (start, end)) identity prefix =
    leb end (length identity)
    && text_eq (take start identity) (take start prefix)
    && eq_ignore_ascii_case (slice start end identity) (slice start end prefix)
    && starts_with (drop end identity) (drop end prefix)

unfoldable pub identity_has_prefix : Text → Text → Bool
unfolding repository_span
identity_has_prefix identity prefix = has_prefix_at (repository_span prefix) identity prefix

unfoldable pub same_url : Text → Text → Bool
unfolding identity_has_prefix
same_url a b = length a == length b && identity_has_prefix a b

abbrev before_ref : Text → Option (Text × Text) → Text
before_ref identity none = identity
before_ref identity (some (path, _)) = path

unfoldable pub without_ref : Text → Text
without_ref identity =
    if not (starts_with identity (codes "https://"))
    then identity
    else before_ref identity (rsplit_once b'@' identity)

abbrev github_repository : Text → Option ℕ → Option Repository
github_repository path none = none
github_repository path (some end) = some (github, take end path)

abbrev gitlab_repository : Option (Text × Text) → Option Repository
gitlab_repository none = none
gitlab_repository (some (project, _)) = some (gitlab, project)

unfoldable pub repository_of : Text → Option Repository
unfolding without_ref
repository_of identity = elim (strip_prefix (without_ref identity) (codes "https://")) [
  | none ↦ none
  | some rest ↦ elim (strip_prefix rest (codes "github.com/")) [
    | some path ↦ github_repository path (nth_index b'/' 1 path)
    | none ↦ elim (strip_prefix rest (codes "gitlab.com/")) [
      | some path ↦ gitlab_repository (split_slashes path)
      | none ↦ none
    ]
  ]
]

-- The third of the pieces of `path.splitn(3, '/')`.
abbrev after_two : Option (Text × Text) → Option (Text × Text)
after_two none = none
after_two (some (_, rest)) = elim (split_once b'/' rest) [
  | none ↦ none
  | some (_, file) ↦ some (github, file)
]

abbrev gitlab_file : Option (Text × Text) → Option (Text × Text)
gitlab_file none = none
gitlab_file (some (_, file)) = some (gitlab, file)

unfoldable pub workflow_path : Text → Option (Text × Text)
unfolding without_ref
workflow_path identity = elim (strip_prefix (without_ref identity) (codes "https://")) [
  | none ↦ none
  | some rest ↦ elim (strip_prefix rest (codes "github.com/")) [
    | some path ↦ after_two (split_once b'/' path)
    | none ↦ elim (strip_prefix rest (codes "gitlab.com/")) [
      | some path ↦ gitlab_file (split_slashes path)
      | none ↦ none
    ]
  ]
]

starts_with_refl : (s : Text) → starts_with s s ≡ true
unfolding starts_with
starts_with_refl [] = refl
starts_with_refl (x ∷ xs) = ground (arith, starts_with_refl xs)
