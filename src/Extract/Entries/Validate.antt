-- ===== src/Extract/Entries/Validate.antt =====
-- `validate` of src/install_extract.rs against a description of the listings.
use packslip.Base.{
  ℕ, ◌+◌, ◌^◌, ◌≤◌, ◌<◌, ◌≡◌, ◌↔◌, refl, sym, false, List, [], ◌∷◌, map, Option, none, some, ltb,
  length, All, ok, Bool-cases, Option-cases, Result-cases, refuse_if-eq-ok, ok-injective, arith,
  inl, inr,
}
use mathlib.Core.Path.{subst}
use packslip.Base.Text.{Text}
use packslip.Extract.Names.{Components, is_nil}
use packslip.Extract.Entries.{
  Kind, Entry, Limits, mapped, Seen, seen_at, is_some, add_size, check_link, scan, validate,
}
use packslip.Extract.Entries.Table.{
  table, Distinct, table-Distinct, IsNested, IsNested-of, IsNested-none,
}

abbrev pub sizes : List Entry → ℕ
sizes [] = 0
sizes (e ∷ es) = e.size + sizes es

-- The checks of an entry's link target; an entry whose path is stripped away has none.
abbrev pub LinkPasses : Option Components → Entry → Type 0
LinkPasses strip e =
    is_nil (mapped e.path strip) ≡ false
    → check_link strip e.path (mapped e.path strip) e.kind ≡ ok tt

pub record IsUnpackable (fold : Text → Text) (entries : List Entry) (limits : Limits)
    (strip : Option Components) : Type 0 where
  pub few : length entries ≤ limits.entries
  pub small : sizes entries ≤ limits.bytes
  pub distinct : Distinct (table fold strip [] entries)
  pub nested : IsNested (table fold strip [] entries)
  pub links : All (LinkPasses strip) entries

add_size-eq-ok :
    (limits : Limits) (total size : ℕ) {n : ℕ}
    → add_size limits total size ≡ ok n
    → (n ≡ total + size) × (total + size ≤ limits.bytes)
add_size-eq-ok limits total size h = ground arith

add_size_fits :
    (limits : Limits) (total size : ℕ)
    → limits.bytes < 2 ^ 64
    → total + size ≤ limits.bytes
    → add_size limits total size ≡ ok (total + size)
add_size_fits limits total size b h = ground arith

is_some-none : (o : Option Kind) → is_some o ≡ false → o ≡ none
is_some-none none h = refl
is_some-none (some k) h = cc

module _ (fold : Text → Text) (limits : Limits) (strip : Option Components) where
  -- What one successful run of the loop shows of the entries that are left.
  record Scanned (seen : Seen) (total : ℕ) (es : List Entry) (r : Seen) : Type 0 where
    gathered : r ≡ table fold strip seen es
    bounded : total ≤ limits.bytes → total + sizes es ≤ limits.bytes
    kept_distinct : Distinct seen → Distinct r
    passes : All (LinkPasses strip) es

  scan-Scanned :
      (es : List Entry) (seen : Seen) (total : ℕ) {r : Seen}
      → scan fold limits strip seen total es ≡ ok r
      → Scanned seen total es r
  unfolding scan
  scan-Scanned [] seen total h = record {
    gathered = sym (ok-injective h);
    bounded = λ b. omega arith;
    kept_distinct = λ d. subst Distinct (ok-injective h) d;
    passes = tt;
  }
  scan-Scanned (e ∷ es) seen total {r} h = elim (Result-cases (add_size limits total e.size)) [
    | inr (x, bad) ↦ cc (rw (bad, scan) at h)
    | inl (n, sized) ↦
        let (same, fits) = add_size-eq-ok limits total e.size sized in
        elim (Bool-cases (is_nil (mapped e.path strip))) [
          | inl skipped ↦
              let s = scan-Scanned es seen n (rw (sized, skipped, scan) at h) in
              record {
                gathered = rw skipped s.gathered;
                bounded = λ b. omega (arith, s.bounded (omega arith));
                kept_distinct = s.kept_distinct;
                passes = ((λ k. cc), s.passes);
              }
          | inr kept ↦ elim (Option-cases (seen_at (map fold (mapped e.path strip)) seen)) [
            | inr (k, twice) ↦ cc (rw (sized, kept, twice, scan) at h)
            | inl fresh ↦
                elim (Result-cases (check_link strip e.path (mapped e.path strip) e.kind)) [
                  | inr (x, bad) ↦ cc (rw (sized, kept, fresh, bad, scan) at h)
                  | inl (u, linked) ↦
                      let s =
                        scan-Scanned es ((map fold (mapped e.path strip), e.kind) ∷ seen) n
                          (rw (sized, kept, fresh, linked, scan) at h) in
                      record {
                        gathered = rw kept s.gathered;
                        bounded = λ b. omega (arith, s.bounded (omega arith));
                        kept_distinct = λ d. s.kept_distinct (fresh, d);
                        passes = ((λ k. linked), s.passes);
                      }
                ]
          ]
        ]
  ]

  scan-table :
      (es : List Entry) (seen : Seen) (total : ℕ)
      → limits.bytes < 2 ^ 64
      → total + sizes es ≤ limits.bytes
      → Distinct (table fold strip seen es)
      → All (LinkPasses strip) es
      → scan fold limits strip seen total es ≡ ok (table fold strip seen es)
  unfolding scan
  scan-table [] seen total b t d l = refl
  scan-table (e ∷ es) seen total b t d l =
      let sized = add_size_fits limits total e.size b (omega arith) in
      elim (Bool-cases (is_nil (mapped e.path strip))) [
        | inl skipped ↦
            rw (sized, skipped)
              (scan-table es seen (total + e.size) b (omega arith) (rw skipped at d) l.1)
        | inr kept ↦
            let d' = rw kept at d in
            let fresh = (table-Distinct fold strip es _ d').0 in
            rw (sized, kept, fresh, l.0 kept)
              (scan-table es _ (total + e.size) b (omega arith) d' l.1)
      ]

-- Where the byte limit is a `u64`, a listing passes exactly when it has no more entries and no
-- more bytes than the limits, no two entries have the same path after stripping and case folding,
-- every listed path above a listed path is a directory, and every link target that is checked
-- passes.
pub validate_iff :
    (fold : Text → Text) (entries : List Entry) (limits : Limits) (strip : Option Components)
    → limits.bytes < 2 ^ 64
    → (validate fold entries limits strip ≡ ok tt) ↔ IsUnpackable fold entries limits strip
unfolding validate
validate_iff fold entries limits strip b = (sound, complete)
  where
    sound : validate fold entries limits strip ≡ ok tt → IsUnpackable fold entries limits strip
    sound h = elim (Bool-cases (ltb limits.entries (length entries))) [
      | inl many ↦ cc (rw (many, validate) at h)
      | inr few ↦ elim (Result-cases (scan fold limits strip [] 0 entries)) [
        | inr (x, bad) ↦ cc (rw (few, bad, validate) at h)
        | inl (seen, scanned) ↦
            let s = scan-Scanned fold limits strip entries [] 0 scanned in
            let clear = refuse_if-eq-ok _ _ (rw (few, scanned, validate) at h) in
            record {
              few = ground arith;
              small = omega (arith, s.bounded (omega arith));
              distinct = subst Distinct s.gathered (s.kept_distinct tt);
              nested = subst IsNested s.gathered (IsNested-of seen clear);
              links = s.passes;
            }
      ]
    ]

    complete : IsUnpackable fold entries limits strip → validate fold entries limits strip ≡ ok tt
    complete u =
        let few : ltb limits.entries (length entries) ≡ false = ground (arith, u.few) in
        let scanned =
          scan-table fold limits strip entries [] 0 b (omega (arith, u.small)) u.distinct u.links in
        rw (few, scanned, IsNested-none (table fold strip [] entries) u.nested) refl
