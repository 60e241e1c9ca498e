-- ===== src/Archive.antt =====
-- src/archive.rs: formats, the paths of an archive's files, and where the declared executables are.
-- The readers of the formats are libraries, so the names that an archive lists are an argument.
pub mod Bins
pub mod Tests
use packslip.Base.{
  ℕ, suc, ◌+◌, Bool, true, false, not, ◌&&◌, ◌||◌, List, [], ◌∷◌, ◌++◌, Option, none, some, map,
  select, reverse, length, ltb, ◌==◌, if◌then◌else◌, Result, ok, err, ◌>>=◌,
}
use packslip.Base.Text.{Text, codes, text_eq, is_empty, contains_byte, starts_with, last_byte}
use packslip.Document.{Bin}
use packslip.Document.Names.{is_in, file_name, named, strip_suffix}

pub data Error : Type 0 where
  bin_not_found : Text → Error
  bin_ambiguous : Text → List Text → Error

abbrev one_of : Text → List Text → Bool
one_of format formats = is_in format formats

unfoldable pub can_list : Text → Bool
can_list format = one_of format (
    codes "tar"
    ∷ codes "tar.gz"
    ∷ codes "tgz"
    ∷ codes "tar.xz"
    ∷ codes "tar.zst"
    ∷ codes "tar.bz2"
    ∷ codes "zip"
    ∷ [])

unfoldable pub compression_of : Text → Option Text
compression_of format =
    if one_of format (codes "tar" ∷ codes "raw" ∷ [])
    then some []
    else if one_of format (codes "tar.gz" ∷ codes "tgz" ∷ codes "gz" ∷ [])
    then some (codes "gz")
    else if one_of format (codes "tar.xz" ∷ codes "xz" ∷ [])
    then some (codes "xz")
    else if one_of format (codes "tar.zst" ∷ codes "zst" ∷ [])
    then some (codes "zst")
    else if one_of format (codes "tar.bz2" ∷ codes "bz2" ∷ [])
    then some (codes "bz2")
    else none

-- The loop takes two bytes at a time, so it is recursion on the text.
unfoldable pub normalize : Text → Text
normalize [] = []
normalize (x ∷ []) = x ∷ []
normalize (x ∷ y ∷ rest) =
    let shorter = normalize rest in if x == b'.' && y == b'/' then shorter else x ∷ y ∷ rest

unfoldable pub zip_path : Text → Text
zip_path = map (λ c. if c == b'\\' then b'/' else c)

abbrev ends_with_slash : Text → Bool
ends_with_slash name = elim (last_byte name) [ none ↦ false | some c ↦ c == b'/' ]

-- What `entries` keeps of the names that the format's reader gives.
unfoldable pub entries : List Text → List Text
unfolding normalize
entries names =
    select (λ name. not (is_empty name) && not (ends_with_slash name)) (map normalize names)

-- `f.matches('/').count()`
abbrev pub depth : Text → ℕ
depth [] = 0
depth (c ∷ cs) = if c == b'/' then suc (depth cs) else depth cs

-- The closure `wanted`, on the file's path.
unfoldable pub wanted : Bool → Bin → Text → Bool
wanted windows bin f =
    text_eq (file_name f) bin.path
    || (windows
        && not (contains_byte b'.' bin.path)
        && (elim (strip_suffix (file_name f) (codes ".exe")) [
          | none ↦ false
          | some stem ↦ text_eq stem bin.path
        ]))

-- Whether the first path goes before the second by depth, and then by length.
abbrev pub goes_after : Text → Text → Bool
goes_after f g = ltb (depth g) (depth f) || (depth g == depth f && ltb (length g) (length f))

abbrev pub insert_path : Text → List Text → List Text
insert_path f [] = f ∷ []
insert_path f (g ∷ gs) =
    let rest = insert_path f gs in if goes_after f g then g ∷ rest else f ∷ g ∷ gs

-- `sort_by_key`, which keeps the order of equals.
unfoldable pub sort_paths : List Text → List Text
sort_paths [] = []
sort_paths (f ∷ fs) = insert_path f (sort_paths fs)

-- `at_depth`
abbrev pub at_shallowest : List Text → List Text
at_shallowest [] = []
at_shallowest (f ∷ fs) = select (λ g. depth g == depth f) (f ∷ fs)

abbrev bin_name : Bool → Bin → Text → Text
bin_name windows bin one =
    if windows
      && not (contains_byte b'.' bin.name)
      && starts_with (reverse one) (reverse (codes ".exe"))
    then bin.name ++ codes ".exe"
    else bin.name

abbrev pub choose_path : Bool → Bin → List Text → Result Error Bin
choose_path windows bin [] = err (bin_not_found bin.path)
choose_path windows bin (one ∷ []) = ok (named one (bin_name windows bin one))
choose_path windows bin (one ∷ two ∷ more) = err (bin_ambiguous bin.path (one ∷ two ∷ more))

-- The body of the loop over the executables.
unfoldable pub resolve_bin : List Text → Bool → Bin → Result Error Bin
unfolding wanted sort_paths
resolve_bin files windows bin =
    if contains_byte b'/' bin.path
    then if is_in bin.path files then ok bin else err (bin_not_found bin.path)
    else choose_path windows bin (at_shallowest (sort_paths (select (wanted windows bin) files)))

unfoldable pub resolve_bins : List Text → Bool → List Bin → Result Error (List Bin)
unfolding resolve_bin
resolve_bins files windows [] = ok []
resolve_bins files windows (bin ∷ bins) = do
  resolved ← resolve_bin files windows bin
  rest ← resolve_bins files windows bins
  ok (resolved ∷ rest)
