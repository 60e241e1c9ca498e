-- ===== src/Transaction/Exports.antt =====
-- `export_name` of src/install_fs.rs on Unix.
use packslip.Base.{
  ℕ, ◌≡◌, ◌≢◌, ◌↔◌, refl, ap, Bool, true, false, ◌||◌, [], ◌∷◌, any, ◌==◌, Result, ok, ◌>>◌,
  refuse_if, passed_eq_ok, arith,
}
use packslip.Base.Text.{
  Text, codes, text_eq, text_eq_iff, is_empty, starts_with, lower, to_ascii_lowercase,
}
use packslip.Extract.Names.{dot, dot_dot, is_platform_byte, ends_badly, is_device, is_owned}
use packslip.Extract.Names.Safe.{IsSafe}
use packslip.Transaction.State.{Error, conflict}

abbrev pub starts_dot : Text → Bool
starts_dot [] = false
starts_dot (c ∷ _) = c == b'.'

abbrev is_export_byte : ℕ → Bool
is_export_byte c = c == b'/' || is_platform_byte c

unfoldable pub export_name : Text → Result Error Text
export_name name = do
  refuse_if
      (is_empty name
        || starts_dot name
        || any is_export_byte name
        || ends_badly name
        || text_eq name dot_dot)
      conflict
  refuse_if (is_device name) conflict
  ok name

lower-dot : (c : ℕ) → (c == b'.') ≡ false → (lower c == b'.') ≡ false
unfolding lower
lower-dot c h = ground (arith, h)

not_owned : (name : Text) → starts_dot name ≡ false → is_owned name ≡ false
unfolding is_owned to_ascii_lowercase starts_with codes
not_owned [] h = refl
not_owned (c ∷ cs) h = rw (lower-dot c h) refl

any-is_export_byte :
    (s : Text)
    → (any is_export_byte s ≡ false)
      ↔ ((any (λ x. x == b'/') s ≡ false) × (any is_platform_byte s ≡ false))
any-is_export_byte [] = (λ h. (refl, refl), λ h. refl)
any-is_export_byte (c ∷ s) = ground (arith, any-is_export_byte s)

starts_dot-ne : (name : Text) → starts_dot name ≡ false → (name ≢ dot) × (name ≢ dot_dot)
starts_dot-ne [] h = (λ e. cc, λ e. cc)
starts_dot-ne (c ∷ cs) h = (λ e. cc (ap starts_dot e, h), λ e. cc (ap starts_dot e, h))

is_empty-ne : (name : Text) → (is_empty name ≡ false) ↔ (name ≢ [])
is_empty-ne [] = (λ h e. cc, λ h. absurd (h refl))
is_empty-ne (c ∷ cs) = (λ h e. cc, λ h. refl)

-- The names that a command may be exported under are exactly the components that an archive path
-- may have and that do not begin with a dot.
pub export_name_iff :
    (name : Text) → (export_name name ≡ ok name) ↔ (IsSafe name × (starts_dot name ≡ false))
unfolding export_name
export_name_iff name = (sound, complete)
  where
    sound : export_name name ≡ ok name → IsSafe name × (starts_dot name ≡ false)
    sound h =
        let (a, b) =
          passed_eq_ok
            (is_empty name
              || starts_dot name
              || any is_export_byte name
              || ends_badly name
              || text_eq name dot_dot)
            _ _ h in
        let (c, d) = passed_eq_ok (is_device name) _ _ b in
        let first : starts_dot name ≡ false = ground (arith, a) in
        let bytes = (any-is_export_byte name).0 (ground (arith, a)) in
        let (not_one, not_two) = starts_dot-ne name first in
        (
          record {
            not_empty = (is_empty-ne name).0 (ground (arith, a));
            not_dot = not_one;
            not_parent = not_two;
            flat = bytes.0;
            plain = bytes.1;
            trimmed = ground (arith, a);
            not_device = c;
            not_owned = not_owned name first;
          },
          first,
        )

    complete : IsSafe name × (starts_dot name ≡ false) → export_name name ≡ ok name
    complete (s, first) =
        rw
          (
            (is_empty-ne name).1 s.not_empty,
            first,
            (any-is_export_byte name).1 (s.flat, s.plain),
            s.trimmed,
            s.not_device,
            export_name,
          )
          (no_parent (text_eq name dot_dot) (λ e. s.not_parent ((text_eq_iff name dot_dot).0 e)))
      where
        no_parent : (b : Bool) → (b ≢ true) → (refuse_if b conflict >> (ok tt >> ok name)) ≡ ok name
        no_parent true n = absurd (n refl)
        no_parent false n = refl
