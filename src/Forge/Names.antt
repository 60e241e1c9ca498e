-- ===== src/Forge/Names.antt =====
-- `ForgeName` and `same_project` of src/forge.rs, on `repository` and `repository_subpath` of
-- src/model.rs.
use packslip.Base.{
  ◌+◌, ◌≡◌, ◌↔◌, refl, Bool, true, not, ◌&&◌, ◌||◌, List, [], ◌∷◌, ◌++◌, Option, none, some, length,
  any, if◌then◌else◌, arith,
}
use packslip.Base.Text.{
  Text, codes, text_eq, text_eq?, text_eq_iff, is_empty, split, split_once, strip_prefix, drop,
  eq_ignore_ascii_case, eq_ignore_ascii_case_iff, to_ascii_lowercase,
}

pub record ForgeName : Type 0 where
  pub host : Text
  pub repository : Text
  pub subpath : Option Text

abbrev pub github : Text
github = codes "github.com"

abbrev pub gitlab : Text
gitlab = codes "gitlab.com"

-- `model::repository`, on the pieces between the slashes.
unfoldable pub repository_in : List Text → Option (Text × Text × Text)
repository_in (host ∷ owner ∷ repo ∷ _) =
    if not (text_eq host github)
    then none
    else if is_empty owner || is_empty repo
    then none
    else some (host, owner, repo)
repository_in _ = none

unfoldable pub repository : Text → Option (Text × Text × Text)
unfolding repository_in
repository project = repository_in (split b'/' project)

abbrev nonempty : Option Text → Option Text
nonempty none = none
nonempty (some s) = if is_empty s then none else some s

unfoldable pub repository_subpath : Text → Option Text
unfolding repository
repository_subpath project = elim (repository project) [
  | none ↦ none
  | some (host, owner, repo) ↦
      nonempty
        (strip_prefix (drop (length host + length owner + length repo + 2) project) (b'/' ∷ []))
]

unfoldable pub parse : Text → Option ForgeName
unfolding repository repository_subpath
parse project = elim (repository project) [
  | some (host, owner, repo) ↦ some (record {
    host = host;
    repository = owner ++ (b'/' ∷ repo);
    subpath = repository_subpath project;
  })
  | none ↦ elim (split_once b'/' project) [
    | none ↦ none
    | some (host, path) ↦
        if not (text_eq host gitlab) || any is_empty (split b'/' path)
        then none
        else some (record { host = host; repository = path; subpath = none })
  ]
]

unfoldable pub issuer : ForgeName → Text
issuer name =
    if text_eq name.host gitlab
    then codes "https://gitlab.com"
    else codes "https://token.actions.githubusercontent.com"

unfoldable pub uri : ForgeName → Text
uri name = codes "https://" ++ name.host ++ (b'/' ∷ name.repository)

unfoldable pub signer_prefix : ForgeName → Text
unfolding uri
signer_prefix name =
    if text_eq name.host gitlab then uri name ++ codes "//" else uri name ++ codes "/"

abbrev pub Repository : Type 0
Repository = Text × Text

unfoldable pub same_repository : Repository → Repository → Bool
same_repository (host, name) (host', name') = text_eq host host' && eq_ignore_ascii_case name name'

abbrev pub same_name : ForgeName → ForgeName → Bool
same_name x y =
    same_repository (x.host, x.repository) (y.host, y.repository) && text_eq? x.subpath y.subpath

abbrev same_parsed : Text → Text → Option ForgeName → Option ForgeName → Bool
same_parsed a b (some x) (some y) = same_name x y
same_parsed a b (some x) none = text_eq a b
same_parsed a b none _ = text_eq a b

unfoldable pub same_project : Text → Text → Bool
same_project a b = same_parsed a b (parse a) (parse b)

-- What a project name names, with the case of a forge's name forgotten.
pub data Named : Type 0 where
  on_forge : Text → Text → Option Text → Named
  elsewhere : Text → Named

abbrev named_by : Text → Option ForgeName → Named
named_by a (some x) = on_forge x.host (to_ascii_lowercase x.repository) x.subpath
named_by a none = elsewhere a

abbrev pub named : Text → Named
named a = named_by a (parse a)

pub text_eq?_iff : (a b : Option Text) → (text_eq? a b ≡ true) ↔ (a ≡ b)
text_eq?_iff none none = ground arith
text_eq?_iff (some a) (some b) = ground (arith, text_eq_iff a b)
text_eq?_iff none (some b) = ground arith
text_eq?_iff (some a) none = ground arith

same_parsed_iff :
    (a b : Text) (x y : Option ForgeName)
    → x ≡ parse a
    → y ≡ parse b
    → (same_parsed a b x y ≡ true) ↔ (named_by a x ≡ named_by b y)
unfolding same_repository
same_parsed_iff a b (some x) (some y) e f = ground (
  arith,
  text_eq_iff x.host y.host,
  eq_ignore_ascii_case_iff x.repository y.repository,
  text_eq?_iff x.subpath y.subpath,
)
same_parsed_iff a b (some x) none e f = (λ h. cc (e, f, (text_eq_iff a b).0 h), λ h. cc)
same_parsed_iff a b none (some y) e f = (λ h. cc (e, f, (text_eq_iff a b).0 h), λ h. cc)
same_parsed_iff a b none none e f = ground (arith, text_eq_iff a b)

-- Two project names are the same project exactly when they name the same thing: on a forge the
-- same host, the same repository name up to ASCII case and the same subpath; elsewhere the same
-- text. So being the same project is an equivalence relation.
pub same_project_iff : (a b : Text) → (same_project a b ≡ true) ↔ (named a ≡ named b)
unfolding same_project
same_project_iff a b = same_parsed_iff a b (parse a) (parse b) refl refl
