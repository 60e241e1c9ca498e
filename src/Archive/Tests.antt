-- ===== src/Archive/Tests.antt =====
-- Archives to run src/archive.rs on.
use packslip.Base.{ℕ, ◌≡◌, refl, true, false, List, [], ◌∷◌, ◌++◌, none, some, ok, err}
use packslip.Base.Text.{Text, codes, strip_prefix}
use packslip.Document.{Bin}
use packslip.Archive.{bin_ambiguous, normalize, entries, resolve_bins, compression_of}
use packslip.Archive.Bins.{dots, normalize_lem, AllResolved, resolve_bins-AllResolved}

abbrev listing : List Text
listing =
    codes "./tool-1.0/tool"
    ∷ codes "./tool-1.0/lib/tool"
    ∷ codes "./tool-1.0/"
    ∷ codes "bin/extra"
    ∷ codes "lib/extra"
    ∷ []

abbrev files : List Text
files =
    codes "tool-1.0/tool" ∷ codes "tool-1.0/lib/tool" ∷ codes "bin/extra" ∷ codes "lib/extra" ∷ []

test_entries : entries listing ≡ files
unfolding entries codes packslip.Base.Text.last_byte
test_entries = refl

abbrev tool : Bin
tool = record { path = codes "tool"; name = codes "tool" }

abbrev found : Bin
found = record { path = codes "tool-1.0/tool"; name = codes "tool" }

test_resolved : resolve_bins files false (tool ∷ []) ≡ ok (found ∷ [])
unfolding resolve_bins codes packslip.Base.Text.text_eq packslip.Document.Names.file_name
    packslip.Base.Text.split packslip.Document.Names.named packslip.Document.Names.command_name
    packslip.Base.Text.drop packslip.Base.Text.eq_ignore_ascii_case
test_resolved = refl

test_ambiguous :
    resolve_bins files false (record { path = codes "extra"; name = codes "extra" } ∷ [])
    ≡ err (bin_ambiguous (codes "extra") (codes "bin/extra" ∷ codes "lib/extra" ∷ []))
unfolding resolve_bins codes packslip.Base.Text.text_eq packslip.Document.Names.file_name
    packslip.Base.Text.split
test_ambiguous = refl

test_compression : compression_of (codes "tgz") ≡ some (codes "gz")
unfolding compression_of packslip.Base.Text.text_eq codes
test_compression = refl

resolve_bins-AllResolved_example : AllResolved files false (tool ∷ []) (found ∷ [])
resolve_bins-AllResolved_example =
    resolve_bins-AllResolved files false (tool ∷ []) (found ∷ []) test_resolved

normalize_lem_example :
    ((n : ℕ) × (codes "././a" ≡ dots n ++ normalize (codes "././a")))
    × (strip_prefix (normalize (codes "././a")) (codes "./") ≡ none)
normalize_lem_example = normalize_lem (codes "././a")
