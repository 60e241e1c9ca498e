-- ===== src/Document/Select.antt =====
-- `select_artifact` of src/model.rs: the one artifact for a host.
pub mod Choice
pub mod Distinct
pub mod Documented
pub mod Ranks
pub mod Rule
use packslip.Base.{
  ℕ, suc, ◌+◌, ◌-◌, ◌≡◌, refl, Bool, true, false, not, ◌&&◌, ◌||◌, List, [], ◌∷◌, Option, none,
  some, length, ltb, ◌==◌, if◌then◌else◌, Result, ok, err,
}
use packslip.Base.Text.{Text, text_eq, text_eq?}
use packslip.Document.{Artifact}

pub record Host : Type 0 where
  pub os : Text
  pub arch : Text
  pub libc : Option Text

pub data Selection : Type 0 where
  no_match : Selection
  ambiguous : Text → Text → Selection

-- The specificity, and how early the format stands in the consumer's list.
abbrev pub Key : Type 0
Key = ℕ × ℕ

-- `known.iter().position(|k| *k == f)`
unfoldable pub position : List Text → Text → Option ℕ
position [] f = none
position (known ∷ formats) f =
    let rest = position formats f in
    if text_eq known f then some 0 else elim rest [ none ↦ none | some i ↦ some (suc i) ]

-- The closure `fits`.
abbrev pub fits : Option Text → Option Text → Bool
fits none _ = true
fits (some v) (some w) = text_eq v w
fits (some v) none = false

abbrev pub count : Option Text → ℕ
count none = 0
count (some _) = 1

abbrev pub specificity : Artifact → ℕ
specificity a = count a.os + count a.arch + count a.libc

abbrev key_of : ℕ → ℕ → Option ℕ → Option Key
key_of n known none = none
key_of n known (some i) = some (n, known - i)

-- The closure `rank`, as the key that the loop makes of it.
unfoldable pub rank : List Text → Artifact → Option Key
unfolding position
rank formats a = elim a.format [
  | none ↦ none
  | some f ↦ key_of (specificity a) (length formats) (position formats f)
]

-- The key of an artifact that the loop does not pass over.
unfoldable pub candidate : Host → Option Text → List Text → Artifact → Option Key
unfolding rank
candidate host variant formats a =
    if fits a.os (some host.os)
      && fits a.arch (some host.arch)
      && fits a.libc host.libc
      && text_eq? a.variant variant
    then rank formats a
    else none

-- The order and the equality of pairs.
abbrev pub key_ltb : Key → Key → Bool
key_ltb (a, b) (c, d) = ltb a c || (a == c && ltb b d)

abbrev pub key_eq : Key → Key → Bool
key_eq (a, b) (c, d) = a == c && b == d

-- The variables `best` and `tied`.
abbrev pub Best : Type 0
Best = Option (Artifact × Key) × Option Artifact

abbrev pub take_key : Artifact → Option Key → Best → Best
take_key a none s = s
take_key a (some key) (none, tied) = (some (a, key), none)
take_key a (some key) (some (c, current), tied) =
    if key_ltb key current
    then (some (c, current), tied)
    else if key_eq key current
    then (some (c, current), some a)
    else (some (a, key), none)

-- The loop over the artifacts.
unfoldable pub run : Host → Option Text → List Text → List Artifact → Best → Best
unfolding candidate
run host variant formats [] s = s
run host variant formats (a ∷ artifacts) s =
    run host variant formats artifacts (take_key a (candidate host variant formats a) s)

abbrev pub settle : Best → Result Selection Artifact
settle (some (chosen, _), none) = ok chosen
settle (some (chosen, _), some other) = err (ambiguous chosen.name other.name)
settle (none, _) = err no_match

unfoldable pub select_artifact :
    List Artifact → Host → Option Text → List Text → Result Selection Artifact
unfolding run
select_artifact artifacts host variant formats =
    settle (run host variant formats artifacts (none, none))
