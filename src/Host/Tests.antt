-- ===== src/Host/Tests.antt =====
-- Snapshots to run src/install_host.rs on.
use packslip.Base.{ℕ, ◌≡◌, ◌↔◌, refl, true, false, List, [], ◌∷◌, Option, none, some, ok, err}
use packslip.Base.Text.{Text, codes}
use packslip.Document.{Requires}
use packslip.Host.{
  less, equal, Snapshot, compare, compare_values, parse_u64, check, require_compatible, below,
  glibc_label,
}
use packslip.Host.Order.{Verdict, compare_values_iff}
use packslip.Host.Compatible.{IsNotBelow, AreNotMissing, check_iff}

abbrev snapshot : Snapshot
snapshot = record {
  os = codes "linux";
  arch = codes "x86_64";
  libc = some (codes "gnu");
  os_version = some (codes "6.1.0");
  glibc_version = some (codes "2.31");
  libraries = (codes "libz.so.1", some true) ∷ [];
  commands = [];
}

abbrev requires : Text → Requires
requires glibc = record {
  os_min = some (codes "6");
  glibc_min = some glibc;
  libs = some (codes "libz.so.1" ∷ codes "libssl.so.3" ∷ []);
  bin = [];
}

test_padded : compare (codes "17") (codes "17.0.0") ≡ some equal
unfolding compare packslip.Base.Text.split codes
test_padded = refl

test_numeric : compare (codes "9.2") (codes "9.10") ≡ some less
unfolding compare packslip.Base.Text.split codes
test_numeric = refl

test_overflow : parse_u64 (codes "18446744073709551616") ≡ none
unfolding parse_u64 codes
test_overflow = refl

test_fits : require_compatible false (check snapshot (some (requires (codes "2.31.0")))) ≡ ok tt
unfolding require_compatible check packslip.Base.Text.text_eq codes compare packslip.Base.Text.split
test_fits = refl

test_below :
    require_compatible false (check snapshot (some (requires (codes "2.34"))))
    ≡ err (below glibc_label (codes "2.31") (codes "2.34") ∷ [])
unfolding require_compatible check packslip.Base.Text.text_eq codes compare packslip.Base.Text.split
test_below = refl

check_iff_example :
    IsNotBelow (some (codes "6.1.0")) (some (codes "6"))
    × IsNotBelow (some (codes "2.31")) (some (codes "2.31.0"))
    × AreNotMissing snapshot.libraries (some (codes "libz.so.1" ∷ codes "libssl.so.3" ∷ []))
check_iff_example = (check_iff snapshot (requires (codes "2.31.0"))).0 test_fits

compare_values_iff_example : Verdict less (9 ∷ 2 ∷ []) (9 ∷ 10 ∷ [])
unfolding compare_values
compare_values_iff_example = (compare_values_iff (9 ∷ 2 ∷ []) (9 ∷ 10 ∷ []) less).0 refl
