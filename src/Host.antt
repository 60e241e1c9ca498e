-- ===== src/Host.antt =====
-- src/install_host.rs: the comparison of versions, and the check of a host snapshot against what an
-- artifact requires. A message is a constructor with the values that it shows.
pub mod Order
pub mod Compatible
pub mod Tests
use packslip.Base.{
  ℕ, zero, suc, ◌+◌, ◌-◌, ◌*◌, Bool, true, false, not, ◌&&◌, List, [], ◌∷◌, ◌++◌, Option, none,
  some, all, length, ltb, ◌==◌, if◌then◌else◌, Result, ok, err, refuse_if,
}
use packslip.Base.Text.{Text, is_empty, is_digit, split}
use packslip.Document.{Requires, RequiredBin}
use packslip.Discovery.Tables.{lookup}

pub data Ordering : Type 0 where
  less equal greater : Ordering

pub record Snapshot : Type 0 where
  pub os : Text
  pub arch : Text
  pub libc : Option Text
  pub os_version : Option Text
  pub glibc_version : Option Text
  pub libraries : List (Text × Option Bool)
  pub commands : List (Text × Option (Option Text))

pub data Label : Type 0 where
  os_label glibc_label : Label

pub data Problem : Type 0 where
  below : Label → Text → Text → Problem
  missing_library : Text → Problem

pub data Warning : Type 0 where
  undeclared undeclared_libraries : Warning
  unestablished : Label → Text → Warning
  unknown_library missing_command : Text → Warning
  command_below command_unknown : Text → Text → Warning

pub record Report : Type 0 where
  pub incompatible : List Problem
  pub warnings : List Warning

abbrev value_from : ℕ → Text → ℕ
value_from acc [] = acc
value_from acc (c ∷ cs) = value_from (acc * 10 + (c - b'0')) cs

abbrev without_plus : Text → Text
without_plus [] = []
without_plus (c ∷ cs) = if c == b'+' then cs else c ∷ cs

abbrev digits_value : Text → Option ℕ
digits_value digits =
    if not (is_empty digits)
      && all is_digit digits
      && ltb (value_from 0 digits) 18446744073709551616
    then some (value_from 0 digits)
    else none

-- `str::parse::<u64>`: digits after an optional plus sign, with a value below 2 ^ 64.
unfoldable pub parse_u64 : Text → Option ℕ
parse_u64 text = digits_value (without_plus text)

abbrev cons_some : Option ℕ → Option (List ℕ) → Option (List ℕ)
cons_some none rest = none
cons_some (some x) none = none
cons_some (some x) (some xs) = some (x ∷ xs)

abbrev parse_all : List Text → Option (List ℕ)
parse_all [] = some []
parse_all (piece ∷ pieces) = cons_some (parse_u64 piece) (parse_all pieces)

-- `split` gives one piece at least, so the values are not empty.
unfoldable pub numeric : Text → Option (List ℕ)
unfolding parse_u64
numeric value = parse_all (split b'.' value)

-- `Vec::resize(count, 0)`
unfoldable pub resize : ℕ → List ℕ → List ℕ
resize zero xs = []
resize (suc count) [] = 0 ∷ resize count []
resize (suc count) (x ∷ xs) = x ∷ resize count xs

-- `Vec::cmp`
unfoldable pub cmp : List ℕ → List ℕ → Ordering
cmp [] [] = equal
cmp [] (y ∷ ys) = less
cmp (x ∷ xs) [] = greater
cmp (x ∷ xs) (y ∷ ys) =
    let rest = cmp xs ys in if ltb x y then less else if ltb y x then greater else rest

abbrev pub max : ℕ → ℕ → ℕ
max a b = if ltb a b then b else a

unfoldable pub compare_values : List ℕ → List ℕ → Ordering
unfolding resize cmp
compare_values actual minimum =
    let count = max (length actual) (length minimum) in
    cmp (resize count actual) (resize count minimum)

abbrev compare_numeric : Option (List ℕ) → Option (List ℕ) → Option Ordering
compare_numeric (some a) (some b) = some (compare_values a b)
compare_numeric _ _ = none

unfoldable pub compare : Text → Text → Option Ordering
unfolding compare_values numeric
compare actual minimum = compare_numeric (numeric actual) (numeric minimum)

abbrev pub add_problem : Problem → Report → Report
add_problem p report = record report { incompatible = report.incompatible ++ (p ∷ []) }

abbrev pub add_warning : Warning → Report → Report
add_warning w report = record report { warnings = report.warnings ++ (w ∷ []) }

abbrev pub by_order : Option Ordering → Problem → Warning → Report → Report
by_order (some less) problem warning report = add_problem problem report
by_order (some _) problem warning report = report
by_order none problem warning report = add_warning warning report

unfoldable pub baseline : Label → Option Text → Option Text → Report → Report
baseline label actual none report = report
baseline label none (some minimum) report = add_warning (unestablished label minimum) report
baseline label (some actual) (some minimum) report =
    by_order (compare actual minimum) (below label actual minimum) (unestablished label minimum)
      report

abbrev pub flatten : Option (Option Bool) → Option Bool
flatten none = none
flatten (some found) = found

abbrev pub by_library : Text → Option Bool → Report → Report
by_library library (some true) report = report
by_library library (some false) report = add_problem (missing_library library) report
by_library library none report = add_warning (unknown_library library) report

unfoldable pub check_libraries : List (Text × Option Bool) → List Text → Report → Report
check_libraries found [] report = report
check_libraries found (library ∷ libraries) report =
    check_libraries found libraries (by_library library (flatten (lookup library found)) report)

abbrev pub by_version : Text → Text → Option Ordering → Report → Report
by_version name minimum (some less) report = add_warning (command_below name minimum) report
by_version name minimum (some _) report = report
by_version name minimum none report = add_warning (command_unknown name minimum) report

abbrev pub by_minimum : Text → Option Text → Option Text → Report → Report
by_minimum name version none report = report
by_minimum name none (some minimum) report = by_version name minimum none report
by_minimum name (some version) (some minimum) report =
    by_version name minimum (compare version minimum) report

abbrev pub by_command : RequiredBin → Option (Option (Option Text)) → Report → Report
by_command command (some (some version)) report = by_minimum command.name version command.min report
by_command command _ report = add_warning (missing_command command.name) report

unfoldable pub check_commands :
    List (Text × Option (Option Text)) → List RequiredBin → Report → Report
check_commands found [] report = report
check_commands found (command ∷ commands) report =
    check_commands found commands (by_command command (lookup command.name found) report)

abbrev pub by_declared : List (Text × Option Bool) → Option (List Text) → Report → Report
by_declared found none report = add_warning undeclared_libraries report
by_declared found (some libraries) report = check_libraries found libraries report

-- `Snapshot::check`
unfoldable pub check : Snapshot → Option Requires → Report
unfolding baseline check_libraries check_commands
check s none = record { incompatible = []; warnings = undeclared ∷ [] }
check s (some r) = check_commands s.commands r.bin (
    by_declared s.libraries r.libs (
      baseline glibc_label s.glibc_version r.glibc_min
        (baseline os_label s.os_version r.os_min (record { incompatible = []; warnings = [] }))))

abbrev pub is_nil : List Problem → Bool
is_nil [] = true
is_nil (_ ∷ _) = false

-- `Report::require_compatible`; the error carries the problems.
unfoldable pub require_compatible : Bool → Report → Result (List Problem) (Unit {0})
require_compatible allow_incompatible report =
    refuse_if (not allow_incompatible && not (is_nil report.incompatible)) report.incompatible
