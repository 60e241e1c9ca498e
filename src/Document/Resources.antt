-- ===== src/Document/Resources.antt =====
-- The resources of src/model.rs: their source, their identities, the artifacts that they fit, and the
-- choice among them.
pub mod Among
pub mod Only
pub mod Preferred
pub mod Specific
use packslip.Base.{
  ◌≡◌, refl, inl, inr, Option-cases, Bool, true, false, not, ◌&&◌, ◌||◌, List, [], ◌∷◌, ◌++◌,
  Option, none, some, map, if◌then◌else◌,
}
use packslip.Base.Text.{Text, codes, text_eq, text_eq?}
use packslip.Document.{Artifact, Resource}
use packslip.Document.Names.{is_bare_format, command_name, file_name, hicolor_size}
use packslip.Document.Invalid.{
  ResourceSource, archive, asset, repo, exec, is_some, is_none, or_empty,
}

abbrev pub listed_if : Bool → ResourceSource → List ResourceSource → List ResourceSource
listed_if true s sources = s ∷ sources
listed_if false s sources = sources

abbrev pub listed_exec : List Text → List ResourceSource
listed_exec [] = []
listed_exec (_ ∷ _) = exec ∷ []

abbrev pub sources : Resource → List ResourceSource
sources r =
    listed_if (is_some r.archive) archive
      (listed_if (is_some r.asset) asset (listed_if (is_some r.repo) repo (listed_exec r.exec)))

abbrev pub only : List ResourceSource → Option ResourceSource
only (one ∷ []) = some one
only _ = none

unfoldable pub source : Resource → Option ResourceSource
source r = only (sources r)

abbrev push_part : Text → Option Text → Text
push_part label none = label
push_part label (some part) = label ++ (b'/' ∷ part)

-- `texts.join(",")`
abbrev pub join : Text → List Text → Text
join sep [] = []
join sep (x ∷ []) = x
join sep (x ∷ y ∷ more) = x ++ (sep ++ join sep (y ∷ more))

unfoldable pub label : Resource → Text
label r =
    let parts =
      push_part (push_part (push_part (push_part r.kind r.format) r.bin) r.shell) r.name in
    elim r.shells [
      | [] ↦ parts
      | shell ∷ shells ↦ parts ++ (b'/' ∷ join (codes ",") (shell ∷ shells))
    ]

-- `scope.is_none() || scope == value`
abbrev pub in_scope : Option Text → Option Text → Bool
in_scope scope value = is_none scope || text_eq? scope value

abbrev pub is_bare : Option Text → Bool
is_bare none = false
is_bare (some format) = is_bare_format format

abbrev pub is_named : Option Text → Text → Bool
is_named none name = true
is_named (some given) name = text_eq given name

unfoldable pub resource_fits : Resource → Artifact → Bool
resource_fits r a =
    not (is_some r.archive && is_bare a.format)
    && is_named r.artifact a.name
    && in_scope r.os a.os
    && in_scope r.arch a.arch
    && in_scope r.libc a.libc

pub record ResourceIdentity : Type 0 where
  pub kind : Text
  pub parts : List Text

abbrev pub texts_eq : List Text → List Text → Bool
texts_eq [] [] = true
texts_eq (x ∷ xs) (y ∷ ys) = text_eq x y && texts_eq xs ys
texts_eq _ _ = false

abbrev pub identity_eq : ResourceIdentity → ResourceIdentity → Bool
identity_eq a b = text_eq a.kind b.kind && texts_eq a.parts b.parts

abbrev pub or_else : Option Text → Option Text → Option Text
or_else (some a) _ = some a
or_else none b = b

abbrev pub map_text : (Text → Text) → Option Text → Option Text
map_text f none = none
map_text f (some a) = some (f a)

abbrev cons_some : Option Text → List Text → List Text
cons_some none parts = parts
cons_some (some part) parts = part ∷ parts

abbrev size_if_icon : Bool → Option Text → Option Text
size_if_icon true (some path) = hicolor_size path
size_if_icon _ _ = none

unfoldable pub bin_of : Option Text → Resource → Option Text
bin_of sole_bin r =
    if text_eq r.kind (codes "cli-spec")
      || text_eq r.kind (codes "skill")
      || text_eq r.kind (codes "sbom")
    then none
    else map_text command_name (or_else r.bin sole_bin)

abbrev by_shells : (List Text → ResourceIdentity) → List Text → List ResourceIdentity
by_shells id [] = id [] ∷ []
by_shells id (s ∷ shells) = map (λ t. id (t ∷ [])) (s ∷ shells)

unfoldable pub identities_for : Option Text → Resource → List ResourceIdentity
unfolding bin_of
identities_for sole_bin r =
    let id : List Text → ResourceIdentity =
      λ parts. record { kind = r.kind; parts = cons_some (bin_of sole_bin r) parts } in
    let path = or_else r.archive (or_else r.asset r.repo) in
    let is : Text → Bool = λ k. text_eq r.kind k in
    if is (codes "completion")
    then by_shells id (cons_some r.shell r.shells)
    else if is (codes "cli-spec")
    then id (or_empty r.format ∷ or_empty (map_text command_name r.bin) ∷ []) ∷ []
    else if is (codes "skill")
    then id (or_empty r.name ∷ []) ∷ []
    else if is (codes "sbom")
    then id (or_empty r.format ∷ []) ∷ []
    else id
        (cons_some (size_if_icon (is (codes "icon")) path) (cons_some (map_text file_name path) []))
      ∷ []
