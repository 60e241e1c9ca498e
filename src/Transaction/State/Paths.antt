-- ===== src/Transaction/State/Paths.antt =====
-- Paths of which neither lies at or below the other, and what a rename leaves at such paths.
use mathlib.Core.List.{append-nil}
use packslip.Base.{
  ◌≡◌, refl, ap, ◌∙◌, Bool, true, false, not, ◌||◌, [], ◌∷◌, ◌++◌, Option, none, some, arith,
}
use packslip.Base.Text.{Text, text_eq, text_eq_refl, text_eq_sym}
use packslip.Extract.Names.{Components}
use packslip.Extract.Entries.{strip_path}
use packslip.Transaction.State.{Entry, moved, removed}

-- The two paths part at some component.
unfoldable pub apart : Components → Components → Bool
apart (c ∷ p) (d ∷ q) = not (text_eq c d) || apart p q
apart _ _ = false

pub apart_sym : (p q : Components) → apart p q ≡ apart q p
unfolding apart
apart_sym (c ∷ p) (d ∷ q) = ground (arith, text_eq_sym c d, apart_sym p q)
apart_sym [] (d ∷ q) = refl
apart_sym (c ∷ p) [] = refl
apart_sym [] [] = refl

-- Whatever lies below two parted paths is parted.
pub apart-append : (p q r s : Components) → apart p q ≡ true → apart (p ++ r) (q ++ s) ≡ true
unfolding apart
apart-append (c ∷ p) (d ∷ q) r s h = ground (arith, apart-append p q r s)
apart-append [] (d ∷ q) r s h = cc
apart-append (c ∷ p) [] r s h = cc
apart-append [] [] r s h = cc

pub strip_path-apart : (p q : Components) → apart p q ≡ true → strip_path q p ≡ none
unfolding apart strip_path
strip_path-apart (c ∷ p) (d ∷ q) h = ground (arith, text_eq_sym c d, strip_path-apart p q)
strip_path-apart [] (d ∷ q) h = cc
strip_path-apart (c ∷ p) [] h = cc
strip_path-apart [] [] h = cc

pub strip_path_self : (p : Components) → strip_path p p ≡ some []
unfolding strip_path
strip_path_self [] = refl
strip_path_self (c ∷ p) = ground (arith, text_eq_refl c, strip_path_self p)

pub strip_path_shorter : (p : Components) (c : Text) → strip_path p (p ++ (c ∷ [])) ≡ none
unfolding strip_path
strip_path_shorter [] c = refl
strip_path_shorter (d ∷ p) c = ground (arith, strip_path_shorter p c)

module _ (from to : Components) (look : Components → Option Entry) where
  pub moved_to : moved from to look to ≡ look from
  unfolding moved
  moved_to = rw (strip_path_self to, moved) (ap look (append-nil from))

  pub moved_from : apart from to ≡ true → moved from to look from ≡ none
  unfolding moved
  moved_from h =
      rw (strip_path-apart to from (apart_sym to from ∙ h), strip_path_self from, moved) refl

  pub moved_other :
      (q : Components)
      → strip_path q from ≡ none
      → strip_path q to ≡ none
      → moved from to look q ≡ look q
  unfolding moved
  moved_other q f t = rw (t, f, moved) refl

pub removed_other :
    (path : Components) (look : Components → Option Entry) (q : Components)
    → apart path q ≡ true
    → removed path look q ≡ look q
unfolding removed
removed_other path look q h = rw (strip_path-apart path q h, removed) refl
