-- ===== src/Document/Resources/Only.antt =====
-- `Resource::source` of src/model.rs against the four members that can give a source.
use mathlib.Core.Path.{subst}
use mathlib.Core.Option.{some-injective}
use packslip.Base.{◌≡◌, refl, List, [], ◌∷◌, Option, none, some}
use packslip.Base.Text.{Text}
use packslip.Document.{Resource}
use packslip.Document.Invalid.{ResourceSource, archive, asset, repo, exec, is_some, or_empty}
use packslip.Document.Resources.{source, only, listed_if, listed_exec}

abbrev pub IsGiven : Option Text → Type 0
IsGiven place = (text : Text) × (place ≡ some text)

-- Of an archive's path, an asset, a repository's path and a command, only the one is given.
abbrev pub IsOnlyOf : ResourceSource → Option Text → Option Text → Option Text → List Text → Type 0
IsOnlyOf archive a b c args = IsGiven a × (b ≡ none) × (c ≡ none) × (args ≡ [])
IsOnlyOf asset a b c args = (a ≡ none) × IsGiven b × (c ≡ none) × (args ≡ [])
IsOnlyOf repo a b c args = (a ≡ none) × (b ≡ none) × IsGiven c × (args ≡ [])
IsOnlyOf exec a b c args =
    (a ≡ none)
    × (b ≡ none)
    × (c ≡ none)
    × ((program : Text) × (more : List Text) × (args ≡ program ∷ more))

abbrev pub IsOnly : ResourceSource → Resource → Type 0
IsOnly from r = IsOnlyOf from r.archive r.asset r.repo r.exec

only-IsOnlyOf :
    (from : ResourceSource) (a b c : Option Text) (args : List Text)
    → only (
        listed_if
          (is_some a)
          archive
          (listed_if (is_some b) asset (listed_if (is_some c) repo (listed_exec args))))
      ≡ some from
    → IsOnlyOf from a b c args
only-IsOnlyOf from none none none [] h = cc
only-IsOnlyOf from none none none (x ∷ xs) h =
    subst (λ s. IsOnlyOf s none none none (x ∷ xs)) (some-injective _ _ h)
      (refl, refl, refl, (x, xs, refl))
only-IsOnlyOf from none none (some c) [] h =
    subst (λ s. IsOnlyOf s none none (some c) []) (some-injective _ _ h)
      (refl, refl, (c, refl), refl)
only-IsOnlyOf from none (some b) none [] h =
    subst (λ s. IsOnlyOf s none (some b) none []) (some-injective _ _ h)
      (refl, (b, refl), refl, refl)
only-IsOnlyOf from (some a) none none [] h =
    subst (λ s. IsOnlyOf s (some a) none none []) (some-injective _ _ h)
      ((a, refl), refl, refl, refl)
only-IsOnlyOf from none none (some c) (x ∷ xs) h = cc
only-IsOnlyOf from none (some b) none (x ∷ xs) h = cc
only-IsOnlyOf from none (some b) (some c) [] h = cc
only-IsOnlyOf from none (some b) (some c) (x ∷ xs) h = cc
only-IsOnlyOf from (some a) none none (x ∷ xs) h = cc
only-IsOnlyOf from (some a) none (some c) [] h = cc
only-IsOnlyOf from (some a) none (some c) (x ∷ xs) h = cc
only-IsOnlyOf from (some a) (some b) none [] h = cc
only-IsOnlyOf from (some a) (some b) none (x ∷ xs) h = cc
only-IsOnlyOf from (some a) (some b) (some c) [] h = cc
only-IsOnlyOf from (some a) (some b) (some c) (x ∷ xs) h = cc

pub source-IsOnly : (r : Resource) (from : ResourceSource) → source r ≡ some from → IsOnly from r
unfolding source
source-IsOnly r from h = only-IsOnlyOf from r.archive r.asset r.repo r.exec h

pub source-asset : (r : Resource) → source r ≡ some asset → r.asset ≡ some (or_empty r.asset)
source-asset r h = let (_, (name, e), _, _) = source-IsOnly r asset h in rw e refl
