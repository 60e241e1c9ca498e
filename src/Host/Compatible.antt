-- ===== src/Host/Compatible.antt =====
-- `Snapshot::check` and `require_compatible` of src/install_host.rs: which requirements refuse a host.
use mathlib.Core.Path.{subst}
use mathlib.Core.Option.{some-injective}
use packslip.Base.{
  ◌≡◌, ◌↔◌, refl, sym, ap, ◌∙◌, Bool, true, false, not, arith, List, [], ◌∷◌, ◌++◌, Option, none,
  some, All, refuse_if-eq-ok, ok,
}
use packslip.Base.Text.{Text}
use packslip.Document.{Requires, RequiredBin}
use packslip.Discovery.Tables.{lookup}
use packslip.Host.{
  Ordering, less, equal, greater, Snapshot, Label, os_label, glibc_label, Problem, Warning, Report,
  compare, by_order, baseline, flatten, by_library, check_libraries, by_version, by_minimum,
  by_command, check_commands, by_declared, check, is_nil, require_compatible, below, unestablished,
}

-- The version that is observed, if it can be compared, is not below the minimum.
abbrev pub IsNotBelow : Option Text → Option Text → Type 0
IsNotBelow actual minimum =
    (a m : Text) → actual ≡ some a → minimum ≡ some m → ¬ (compare a m ≡ some less)

-- No library that is required was looked for and not found.
abbrev pub AreNotMissing : List (Text × Option Bool) → Option (List Text) → Type 0
AreNotMissing found none = Unit
AreNotMissing found (some libraries) =
    All (λ library. ¬ (lookup library found ≡ some (some false))) libraries

abbrev IsClean : Report → Type 0
IsClean report = report.incompatible ≡ []

append-ne-nil : (xs : List Problem) (p : Problem) → ¬ (xs ++ (p ∷ []) ≡ [])
append-ne-nil [] p h = cc
append-ne-nil (x ∷ xs) p h = cc

order_iff :
    (o : Option Ordering) (problem : Problem) (warning : Warning) (report : Report)
    → IsClean (by_order o problem warning report) ↔ (IsClean report × (¬ (o ≡ some less)))
order_iff none problem warning report = (λ h. (h, λ e. cc), λ h. h.0)
order_iff (some less) problem warning report =
    (λ h. absurd (append-ne-nil report.incompatible problem h), λ h. absurd (h.1 refl))
order_iff (some equal) problem warning report = (λ h. (h, λ e. cc), λ h. h.0)
order_iff (some greater) problem warning report = (λ h. (h, λ e. cc), λ h. h.0)

baseline_iff :
    (label : Label) (actual minimum : Option Text) (report : Report)
    → IsClean (baseline label actual minimum report) ↔ (IsClean report × IsNotBelow actual minimum)
unfolding baseline
baseline_iff label actual none report = (λ h. (h, λ a m p q. cc), λ h. h.0)
baseline_iff label none (some minimum) report = (λ h. (h, λ a m p q. cc), λ h. h.0)
baseline_iff label (some actual) (some minimum) report =
    let o =
      order_iff (compare actual minimum) (below label actual minimum) (unestablished label minimum)
        report in
    (
      λ h.
          let (x, y) = o.0 h in
          (
            x,
            λ a m p q e. y (
                subst (λ u. compare actual u ≡ some less) (sym (some-injective _ _ q))
                  (subst (λ u. compare u m ≡ some less) (sym (some-injective _ _ p)) e)),
          ),
      λ h. o.1 (h.0, h.1 actual minimum refl refl),
    )

library_iff :
    (library : Text) (o : Option Bool) (report : Report)
    → IsClean (by_library library o report) ↔ (IsClean report × (¬ (o ≡ some false)))
library_iff library none report = (λ h. (h, λ e. cc), λ h. h.0)
library_iff library (some true) report = (λ h. (h, λ e. cc), λ h. h.0)
library_iff library (some false) report =
    (λ h. absurd (append-ne-nil report.incompatible _ h), λ h. absurd (h.1 refl))

flatten_iff : (o : Option (Option Bool)) → (flatten o ≡ some false) ↔ (o ≡ some (some false))
flatten_iff none = (λ h. cc, λ h. cc)
flatten_iff (some none) = (λ h. cc, λ h. some-injective _ _ h)
flatten_iff (some (some b)) = (λ h. ap some h, λ h. some-injective _ _ h)

check_libraries_iff :
    (found : List (Text × Option Bool)) (libraries : List Text) (report : Report)
    → IsClean (check_libraries found libraries report)
      ↔ (IsClean report × All (λ l. ¬ (lookup l found ≡ some (some false))) libraries)
unfolding check_libraries
check_libraries_iff found [] report = (λ h. (h, tt), λ h. h.0)
check_libraries_iff found (l ∷ libraries) report =
    let here = library_iff l (flatten (lookup l found)) report in
    let rest =
      check_libraries_iff found libraries (by_library l (flatten (lookup l found)) report) in
    let f = flatten_iff (lookup l found) in
    (
      λ h. let (x, y) = rest.0 h in let (a, b) = here.0 x in (a, (λ e. b (f.1 e), y)),
      λ (a, (b, c)). rest.1 (here.1 (a, λ e. b (f.0 e)), c),
    )

by_declared_iff :
    (found : List (Text × Option Bool)) (libs : Option (List Text)) (report : Report)
    → IsClean (by_declared found libs report) ↔ (IsClean report × AreNotMissing found libs)
by_declared_iff found none report = (λ h. (h, tt), λ h. h.0)
by_declared_iff found (some libraries) report = check_libraries_iff found libraries report

by_version-incompatible :
    (name minimum : Text) (o : Option Ordering) (report : Report)
    → (by_version name minimum o report).incompatible ≡ report.incompatible
by_version-incompatible name minimum none report = refl
by_version-incompatible name minimum (some less) report = refl
by_version-incompatible name minimum (some equal) report = refl
by_version-incompatible name minimum (some greater) report = refl

by_minimum-incompatible :
    (name : Text) (version minimum : Option Text) (report : Report)
    → (by_minimum name version minimum report).incompatible ≡ report.incompatible
by_minimum-incompatible name version none report = refl
by_minimum-incompatible name none (some m) report = refl
by_minimum-incompatible name (some v) (some m) report =
    by_version-incompatible name m (compare v m) report

by_command-incompatible :
    (command : RequiredBin) (o : Option (Option (Option Text))) (report : Report)
    → (by_command command o report).incompatible ≡ report.incompatible
by_command-incompatible command none report = refl
by_command-incompatible command (some none) report = refl
by_command-incompatible command (some (some version)) report =
    by_minimum-incompatible command.name version command.min report

check_commands-incompatible :
    (found : List (Text × Option (Option Text))) (commands : List RequiredBin) (report : Report)
    → (check_commands found commands report).incompatible ≡ report.incompatible
unfolding check_commands
check_commands-incompatible found [] report = refl
check_commands-incompatible found (c ∷ commands) report =
    check_commands-incompatible found commands (by_command c (lookup c.name found) report)
    ∙ by_command-incompatible c (lookup c.name found) report

is_nil_iff : (xs : List Problem) → (is_nil xs ≡ true) ↔ (xs ≡ [])
is_nil_iff [] = (λ h. refl, λ h. refl)
is_nil_iff (x ∷ xs) = (λ h. cc, λ h. cc)

require_compatible_iff :
    (report : Report) → (require_compatible false report ≡ ok tt) ↔ IsClean report
unfolding require_compatible
require_compatible_iff report =
    let n = is_nil_iff report.incompatible in
    (
      λ h.
          let k = refuse_if-eq-ok (not (is_nil report.incompatible)) _ h in n.0 (ground (arith, k)),
      λ h. rw (n.1 h, require_compatible) refl,
    )

-- A host is let through, where nothing incompatible is allowed, exactly when its observed versions
-- of the system and of glibc are not below the minimums and no required library was found missing;
-- what could not be observed and the commands that are required do not refuse it.
pub check_iff :
    (s : Snapshot) (r : Requires)
    → (require_compatible false (check s (some r)) ≡ ok tt) ↔ (
        IsNotBelow s.os_version r.os_min
        × IsNotBelow s.glibc_version r.glibc_min
        × AreNotMissing s.libraries r.libs)
unfolding check
check_iff s r =
    let start : Report = record { incompatible = []; warnings = [] } in
    let os = baseline os_label s.os_version r.os_min start in
    let glibc = baseline glibc_label s.glibc_version r.glibc_min os in
    let libs = by_declared s.libraries r.libs glibc in
    let q = require_compatible_iff (check s (some r)) in
    let c = check_commands-incompatible s.commands r.bin libs in
    let l = by_declared_iff s.libraries r.libs glibc in
    let g = baseline_iff glibc_label s.glibc_version r.glibc_min os in
    let o = baseline_iff os_label s.os_version r.os_min start in
    (
      λ h. let (x, z) = l.0 (sym c ∙ q.0 h) in let (w, y) = g.0 x in ((o.0 w).1, y, z),
      λ (x, y, z). q.1 (c ∙ l.1 (g.1 (o.1 (refl, x), y), z)),
    )
