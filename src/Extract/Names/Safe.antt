-- ===== src/Extract/Names/Safe.antt =====
-- The components that `path` of src/install_extract.rs is about.
use packslip.Base.{
  ◌≡◌, ◌≢◌, refl, sym, ap, ◌∙◌, true, false, List, [], ◌∷◌, ◌++◌, All, ◌==◌, arith, Result, ok,
  ◌>>=◌, ◌>>◌, refuse_if, bind-eq-ok, refuse_if-eq-ok,
}
use packslip.Base.Text.{Text, text_eq, text_eq_iff, split}
use packslip.Extract.Names.{
  Error, refused, invalid_path, empty_path, Components, dot, dot_dot, is_platform_byte,
  is_malformed, is_kept, parts, ends_badly, is_device, is_owned, check_component, push_components,
  is_nil, path,
}
use packslip.Extract.Names.Split.{Lacks, All_select, All_select_kept, split-Lacks, split_flat}
use mathlib.Core.List.{append-nil, append_assoc}

-- A component that may be created below the extraction root on any system.
pub record IsSafe (c : Text) : Type 0 where
  pub not_empty : c ≢ []
  pub not_dot : c ≢ dot
  pub not_parent : c ≢ dot_dot
  pub flat : Lacks (λ x. x == b'/') c
  pub plain : Lacks is_platform_byte c
  pub trimmed : ends_badly c ≡ false
  pub not_device : is_device c ≡ false
  pub not_owned : is_owned c ≡ false

check_component-eq-ok :
    (c : Text) {u : Unit {0}}
    → check_component c ≡ ok u
    → (text_eq c dot_dot ≡ false)
      × (ends_badly c ≡ false)
      × (is_device c ≡ false)
      × (is_owned c ≡ false)
check_component-eq-ok c h = ground arith

push_components-eq-ok :
    (cs : List Text) (result : Components) {p : Components}
    → push_components result cs ≡ ok p
    → (p ≡ result ++ cs) × All (λ c. check_component c ≡ ok tt) cs
unfolding push_components
push_components-eq-ok [] result h = (ground (arith, append-nil result), tt)
push_components-eq-ok (c ∷ cs) result h =
    let (u, checked, later) =
      bind-eq-ok (check_component c) (λ _. push_components (result ++ (c ∷ [])) cs) h in
    let (e, rest) = push_components-eq-ok cs (result ++ (c ∷ [])) later in
    (e ∙ append_assoc result (c ∷ []) cs, (checked, rest))

pub push_components_checked :
    (cs : List Text) (result : Components)
    → All (λ c. check_component c ≡ ok tt) cs
    → push_components result cs ≡ ok (result ++ cs)
unfolding push_components
push_components_checked [] result h = ap ok (sym (append-nil result))
push_components_checked (c ∷ cs) result h =
    rw h.0 (
      push_components_checked cs (result ++ (c ∷ [])) h.1 ∙ ap ok (append_assoc result (c ∷ []) cs))

pub IsSafe-checked : (c : Text) → IsSafe c → check_component c ≡ ok tt
IsSafe-checked c s =
    ground (arith, s.not_parent, s.trimmed, s.not_device, s.not_owned, text_eq_iff c dot_dot)

is_kept-ne : (c : Text) → is_kept c ≡ true → (c ≢ []) × (c ≢ dot)
is_kept-ne [] h = (λ _. cc, λ _. cc)
is_kept-ne (x ∷ c) h = (λ e. cc, ground (arith, text_eq_iff (x ∷ c) dot))

pub IsSafe-is_kept : (c : Text) → IsSafe c → is_kept c ≡ true
IsSafe-is_kept [] s = absurd (s.not_empty refl)
IsSafe-is_kept (x ∷ c) s = ground (arith, s.not_dot, text_eq_iff (x ∷ c) dot)

-- The facts about a text that `path` accepts, before they are gathered for each component.
pub record Accepted (input : Text) (p : Components) : Type 0 where
  pub well_formed : is_malformed input ≡ false
  pub same_parts : p ≡ parts input
  pub checked : All (λ c. check_component c ≡ ok tt) (parts input)
  pub some_part : p ≢ []

is_nil-ne : (p : Components) → is_nil p ≡ false → p ≢ []
is_nil-ne [] h e = cc
is_nil-ne (c ∷ p) h e = cc

abbrev nonempty : Components → Result Error Components
nonempty result = do refuse_if (is_nil result) (refused empty_path); ok result

nonempty-eq-ok : (r : Components) {p : Components} → nonempty r ≡ ok p → (p ≡ r) × (r ≢ [])
nonempty-eq-ok [] h = cc
nonempty-eq-ok (c ∷ r) h = (cc, λ e. cc)

pub path-Accepted : (input : Text) {p : Components} → path input ≡ ok p → Accepted input p
unfolding path
path-Accepted input h =
    let (u, good, pushed) =
      bind-eq-ok (refuse_if (is_malformed input) (refused invalid_path))
        (λ _. push_components [] (parts input) >>= nonempty) h in
    let (r, e, last) = bind-eq-ok (push_components [] (parts input)) nonempty pushed in
    let (same, checked) = push_components-eq-ok (parts input) [] e in
    let (q, ne) = nonempty-eq-ok r last in
    record {
      well_formed = refuse_if-eq-ok _ _ good;
      same_parts = q ∙ same;
      checked = checked;
      some_part = λ z. ne (sym q ∙ z);
    }

-- The three facts about one component that its pieces and checks give.
IsSafe-of :
    (c : Text)
    → is_kept c ≡ true
    → Lacks (λ x. x == b'/') c
    → Lacks is_platform_byte c
    → check_component c ≡ ok tt
    → IsSafe c
IsSafe-of c kept flat plain checked =
    let (a, b) = is_kept-ne c kept in
    let (d, e, f, g) = check_component-eq-ok c checked in
    record {
      not_empty = a;
      not_dot = b;
      not_parent = ground (arith, text_eq_iff c dot_dot);
      flat = flat;
      plain = plain;
      trimmed = e;
      not_device = f;
      not_owned = g;
    }

All_zip4 :
    (xs : List Text)
    → All (λ c. is_kept c ≡ true) xs
    → All (Lacks (λ x. x == b'/')) xs
    → All (Lacks is_platform_byte) xs
    → All (λ c. check_component c ≡ ok tt) xs
    → All IsSafe xs
All_zip4 [] k f p c = tt
All_zip4 (x ∷ xs) k f p c = (IsSafe-of x k.0 f.0 p.0 c.0, All_zip4 xs k.1 f.1 p.1 c.1)

pub is_malformed-plain : (input : Text) → is_malformed input ≡ false → Lacks is_platform_byte input
unfolding is_malformed
is_malformed-plain input h = ground arith

pub Accepted-IsSafe : {input : Text} {p : Components} → Accepted input p → All IsSafe p
Accepted-IsSafe {input} a =
    let plain = is_malformed-plain input a.well_formed in
    rw a.same_parts (
      All_zip4 (parts input) (All_select_kept is_kept (split b'/' input))
        (All_select _ is_kept _ (split_flat b'/' input))
        (All_select _ is_kept _ (split-Lacks is_platform_byte b'/' input plain)) a.checked)

-- A path that is taken has at least one component, and each of them is safe to create.
pub path-IsSafe : (input : Text) {p : Components} → path input ≡ ok p → (p ≢ []) × All IsSafe p
path-IsSafe input h = let a = path-Accepted input h in (a.some_part, Accepted-IsSafe a)
