-- ===== src/Extract/Names.antt =====
-- `path` and `link_path` of src/install_extract.rs: an archive's names as relative paths. A
-- `PathBuf` is the list of its components, and a refusal keeps its reason in place of its message.
pub mod Split
pub mod Safe
pub mod Canonical
pub mod Links
use packslip.Base.{
  ℕ, ◌+◌, ◌≤◌, Bool, true, false, not, ◌&&◌, ◌||◌, List, [], ◌∷◌, ◌++◌, Option, none, some, ltb,
  length, any, select, Result, ok, err, ◌>>=◌, ◌>>◌, refuse_if, if◌then◌else◌, ◌==◌,
}
use packslip.Base.Text.{
  Text, codes, text_eq, is_empty, starts_with, strip_prefix, last_byte, split, upper,
  to_ascii_lowercase, is_digit,
}

pub data Why : Type 0 where
  invalid_path reserved_path ownership_path empty_path absolute_target link_escapes link_is_root :
      Why
  duplicate_path hard_link_is_root ancestor_not_dir deep_link : Why

pub data Error : Type 0 where
  io : Error
  refused : Why → Error
  limit : Error

abbrev pub Components : Type 0
Components = List Text

abbrev pub dot : Text
dot = b'.' ∷ []

abbrev pub dot_dot : Text
dot_dot = b'.' ∷ b'.' ∷ []

abbrev pub is_platform_byte : ℕ → Bool
is_platform_byte c = c == b'\\' || c == b':' || c == 0

abbrev pub starts_slash : Text → Bool
starts_slash [] = false
starts_slash (c ∷ _) = c == b'/'

-- The first test of both functions.
unfoldable pub is_malformed : Text → Bool
is_malformed input =
    ltb 4096 (length input)
    || ltb 128 (length (split b'/' input))
    || starts_slash input
    || any is_platform_byte input

-- `filter(|c| !c.is_empty() && *c != ".")`
abbrev pub is_kept : Text → Bool
is_kept c = not (is_empty c) && not (text_eq c dot)

abbrev pub parts : Text → List Text
parts input = select is_kept (split b'/' input)

abbrev pub ends_badly : Text → Bool
ends_badly c = elim (last_byte c) [ none ↦ false | some b ↦ b == b' ' || b == b'.' ]

-- `component.split('.').next().unwrap().to_ascii_uppercase()`
abbrev pub first_or_empty : List Text → Text
first_or_empty [] = []
first_or_empty (p ∷ _) = p

to_upper : Text → Text
to_upper [] = []
to_upper (c ∷ cs) = upper c ∷ to_upper cs

device_base : Text → Text
device_base c = to_upper (first_or_empty (split b'.' c))

one_digit : Text → Bool
one_digit (c ∷ []) = is_digit c
one_digit _ = false

-- One digit, or a superscript one, two or three in UTF-8.
is_port_number : Text → Bool
is_port_number suffix =
    one_digit suffix
    || text_eq suffix (194 ∷ 185 ∷ [])
    || text_eq suffix (194 ∷ 178 ∷ [])
    || text_eq suffix (194 ∷ 179 ∷ [])

is_port : Text → Bool
is_port base = elim (strip_prefix base (codes "COM")) [
  | some suffix ↦ is_port_number suffix
  | none ↦ elim (strip_prefix base (codes "LPT")) [
    | some suffix ↦ is_port_number suffix
    | none ↦ false
  ]
]

unfoldable pub is_device : Text → Bool
unfolding to_upper device_base one_digit is_port_number is_port
is_device c =
    let base = device_base c in
    text_eq base (codes "CON")
    || text_eq base (codes "PRN")
    || text_eq base (codes "AUX")
    || text_eq base (codes "NUL")
    || text_eq base (codes "CONIN$")
    || text_eq base (codes "CONOUT$")
    || is_port base

unfoldable pub is_owned : Text → Bool
is_owned c = starts_with (to_ascii_lowercase c) (codes ".packslip")

-- The body of the loop over the components.
abbrev pub check_component : Text → Result Error (Unit {0})
check_component c = do
  refuse_if (text_eq c dot_dot || ends_badly c) (refused invalid_path)
  refuse_if (is_device c) (refused reserved_path)
  refuse_if (is_owned c) (refused ownership_path)

unfoldable pub push_components : Components → List Text → Result Error Components
push_components result [] = ok result
push_components result (c ∷ cs) = do check_component c; push_components (result ++ (c ∷ [])) cs

abbrev pub is_nil : Components → Bool
is_nil [] = true
is_nil (_ ∷ _) = false

unfoldable pub path : Text → Result Error Components
unfolding push_components is_malformed
path input = do
  refuse_if (is_malformed input) (refused invalid_path)
  result ← push_components [] (parts input)
  refuse_if (is_nil result) (refused empty_path)
  ok result

-- `PathBuf::pop`: the path without its last component, or `none` where it is empty.
unfoldable pub pop : Components → Option Components
pop [] = none
pop (c ∷ []) = some []
pop (c ∷ d ∷ cs) = elim (pop (d ∷ cs)) [ none ↦ none | some r ↦ some (c ∷ r) ]

unfoldable pub walk : Components → List Text → Result Error Components
walk at [] = ok at
walk at (part ∷ rest) =
    if text_eq part dot_dot
    then (elim (pop at) [ none ↦ err (refused link_escapes) | some up ↦ walk up rest ])
    else do down ← path part; walk (at ++ down) rest

unfoldable pub link_path : Components → Text → Result Error Components
unfolding walk is_malformed
link_path parent target = do
  refuse_if (is_malformed target) (refused absolute_target)
  normalized ← walk parent (parts target)
  refuse_if (is_nil normalized) (refused link_is_root)
  ok normalized
