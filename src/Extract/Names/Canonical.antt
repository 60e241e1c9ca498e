-- ===== src/Extract/Names/Canonical.antt =====
-- `path` of src/install_extract.rs on components joined by slashes.
use packslip.Base.{◌≤◌, ◌≡◌, ◌≢◌, ◌↔◌, refl, ◌∙◌, false, [], ◌∷◌, length, All, All_imp, arith, ok}
use packslip.Base.Text.{Text, split}
use packslip.Extract.Names.{
  Components, is_platform_byte, is_malformed, is_kept, parts, is_nil, path, starts_slash,
}
use packslip.Extract.Names.Split.{
  join, split-join, join-Lacks, select_all, length-select, length-join-select,
}
use packslip.Extract.Names.Safe.{
  IsSafe, IsSafe-checked, IsSafe-is_kept, push_components_checked, path-Accepted, Accepted-IsSafe,
}

-- The limits on a path, with the components that it has.
pub record Fits (p : Components) : Type 0 where
  pub some_part : p ≢ []
  pub safe : All IsSafe p
  pub short : length (join b'/' p) ≤ 4096
  pub shallow : length p ≤ 128

starts_slash-join : (p : Components) → All IsSafe p → starts_slash (join b'/' p) ≡ false
unfolding join
starts_slash-join [] h = refl
starts_slash-join ([] ∷ p) h = absurd (h.0.not_empty refl)
starts_slash-join ((x ∷ c) ∷ []) h = ground (arith, h.0.flat)
starts_slash-join ((x ∷ c) ∷ d ∷ p) h = ground (arith, h.0.flat)

join-split : (p : Components) → p ≢ [] → All IsSafe p → split b'/' (join b'/' p) ≡ p
join-split p ne h = split-join b'/' p ne (All_imp p (λ c s. s.flat) h)

join-parts : (p : Components) → p ≢ [] → All IsSafe p → parts (join b'/' p) ≡ p
join-parts p ne h = rw (join-split p ne h) (select_all is_kept p (All_imp p IsSafe-is_kept h))

is_malformed-join : (p : Components) → Fits p → is_malformed (join b'/' p) ≡ false
unfolding is_malformed
is_malformed-join p f = rw (join-split p f.some_part f.safe) (
    ground (
      arith,
      f.short,
      f.shallow,
      starts_slash-join p f.safe,
      join-Lacks is_platform_byte b'/' p refl (All_imp p (λ c s. s.plain) f.safe),
    ))

is_nil_ne : (p : Components) → p ≢ [] → is_nil p ≡ false
is_nil_ne [] ne = absurd (ne refl)
is_nil_ne (c ∷ p) ne = refl

path-join-Fits : (p : Components) → Fits p → path (join b'/' p) ≡ ok p
unfolding path
path-join-Fits p f =
    rw
      (
        is_malformed-join p f,
        join-parts p f.some_part f.safe,
        push_components_checked p [] (All_imp p IsSafe-checked f.safe),
        is_nil_ne p f.some_part,
      )
      refl

Fits-path : (input : Text) {p : Components} → path input ≡ ok p → Fits p
unfolding is_malformed
Fits-path input h =
    let a = path-Accepted input h in
    record {
      some_part = a.some_part;
      safe = Accepted-IsSafe a;
      short = rw a.same_parts (
          omega (
            arith,
            length-join-select b'/' is_kept input (λ e. a.some_part (a.same_parts ∙ e)),
            length_ok input a.well_formed,
          ));
      shallow =
          rw a.same_parts (
            omega (arith, length-select is_kept (split b'/' input), pieces_ok input a.well_formed));
    }
  where
    length_ok : (s : Text) → is_malformed s ≡ false → length s ≤ 4096
    length_ok s w = ground arith

    pieces_ok : (s : Text) → is_malformed s ≡ false → length (split b'/' s) ≤ 128
    pieces_ok s w = ground arith

-- The components of a path, joined by slashes, are read back as the path exactly when there is
-- a component, each is safe, there are at most 128, and the joined text has at most 4096 bytes.
pub path-join_iff : (p : Components) → (path (join b'/' p) ≡ ok p) ↔ Fits p
path-join_iff p = (Fits-path (join b'/' p), path-join-Fits p)

-- Whatever spelling of a path is accepted, its components joined by slashes are accepted as the
-- same path.
pub path-join-path : (input : Text) {p : Components} → path input ≡ ok p → path (join b'/' p) ≡ ok p
path-join-path input {p} h = path-join-Fits p (Fits-path input h)
