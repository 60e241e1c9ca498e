-- ===== src/Discovery/Requests/Matches.antt =====
-- `matches_request` of src/discovery.rs on a numeric request.
use mathlib.Core.Path.{subst}
use mathlib.Core.Option.{some-injective}
use packslip.Base.{
  ◌≡◌, ◌↔◌, ◌⊎◌, inl, inr, refl, Bool, true, false, not, ◌&&◌, ◌||◌, arith, List, [], ◌∷◌, ◌++◌,
  Option, some, map, any, All, ◌==◌, ==_iff, Bool-cases, Option-cases, if◌then◌else◌,
}
use packslip.Base.Text.{
  Text, text_eq, text_eq_iff, contains_byte, split, strip_prefix, strip_prefix_iff,
}
use packslip.Extract.Names.Split.{join}
use packslip.Document.Versions.{core_and_tail, are_numbers, number_of}
use packslip.Document.Versions.Normal.{
  IsCanonical, pad-IsCanonical, are_numbers-IsCanonical, first-digit,
}
use packslip.Discovery.{Release}
use packslip.Discovery.Requests.{
  without_v, pad_tailed, numeric_request, is_range_byte, first_is_digit, at_boundary,
  matches_request,
}

-- The version goes on after the request with another component, or with build metadata.
abbrev pub Extends : Text → Text → Type 0
Extends version requested =
    (rest : Text) × ((version ≡ requested ++ (b'.' ∷ rest))
      ⊎ (version ≡ requested ++ (b'+' ∷ rest)))

at_boundary_iff :
    (version requested : Text)
    → (at_boundary (strip_prefix version requested) ≡ true) ↔ Extends version requested
at_boundary_iff version requested = (
  λ h. elim (Option-cases (strip_prefix version requested)) [
    | inl e ↦ cc (rw e at h)
    | inr ([], e) ↦ cc (rw e at h)
    | inr (c ∷ rest, e) ↦
        let whole = (strip_prefix_iff version requested (c ∷ rest)).0 e in
        let cut : (c == b'.' || c == b'+') ≡ true = rw e at h in
        elim (Bool-cases (c == b'.')) [
          | inl d ↦ (
            rest,
            inl (subst (λ x. version ≡ requested ++ (x ∷ rest)) ((==_iff c b'.').0 d) whole),
          )
          | inr d ↦ (
            rest,
            inr (
                subst (λ x. version ≡ requested ++ (x ∷ rest)) ((==_iff c b'+').0 (ground arith))
                  whole),
          )
        ]
  ],
  λ (rest, h). elim h [
    | inl e ↦ rw ((strip_prefix_iff version requested (b'.' ∷ rest)).1 e) refl
    | inr e ↦ rw ((strip_prefix_iff version requested (b'+' ∷ rest)).1 e) refl
  ],
)

pad_tailed-IsCanonical :
    (tail : Text) (ns : List Text) → All IsCanonical ns → All IsCanonical (pad_tailed tail ns)
pad_tailed-IsCanonical [] ns h = h
pad_tailed-IsCanonical (x ∷ xs) [] h = h
pad_tailed-IsCanonical (x ∷ xs) (a ∷ []) h = h
pad_tailed-IsCanonical (x ∷ xs) (a ∷ b ∷ []) h = pad-IsCanonical (a ∷ b ∷ []) h
pad_tailed-IsCanonical (x ∷ xs) (a ∷ b ∷ c ∷ ns) h = h

pad_tailed-some :
    (tail : Text) (n : Text) (ns : List Text)
    → (m : Text) × (ms : List Text) × (pad_tailed tail (n ∷ ns) ≡ m ∷ ms)
pad_tailed-some [] n ns = (n, ns, refl)
pad_tailed-some (x ∷ xs) n [] = (n, [], refl)
pad_tailed-some (x ∷ xs) n (a ∷ []) = (n, _, refl)
pad_tailed-some (x ∷ xs) n (a ∷ b ∷ c) = (n, _, refl)

joined-digit :
    (tail : Text) (parts : List Text)
    → are_numbers 1 parts ≡ true
    → first_is_digit (join b'.' (pad_tailed tail (map number_of parts)) ++ tail) ≡ true
joined-digit tail [] h = cc
joined-digit tail (p ∷ parts) h =
    let (m, ms, e) = pad_tailed-some tail (number_of p) (map number_of parts) in
    let c =
      pad_tailed-IsCanonical tail (map number_of (p ∷ parts))
        (are_numbers-IsCanonical (p ∷ parts) (ground (arith, h))) in
    let (d, r, q, k) = first-digit m ms (subst (All IsCanonical) e c).0 in rw (e, q) k

numeric_request-digit :
    (request r : Text) → numeric_request request ≡ some r → first_is_digit r ≡ true
unfolding numeric_request
numeric_request-digit request r h =
    let core = (core_and_tail (without_v request)).0 in
    let tail = (core_and_tail (without_v request)).1 in
    elim (Bool-cases (are_numbers 1 (split b'.' core))) [
      | inr e ↦ cc (rw (e, numeric_request) at h)
      | inl e ↦
          subst (λ u. first_is_digit u ≡ true) (some-injective _ _ (rw (e, numeric_request) at h))
            (joined-digit tail (split b'.' core) e)
    ]

either_iff : (t k : Bool) → ((if t then true else k) ≡ true) ↔ ((t ≡ true) ⊎ (k ≡ true))
either_iff true k = (λ h. inl refl, λ h. refl)
either_iff false k = (λ h. inr h, λ h. elim h [ inl e ↦ cc | inr e ↦ e ])

gate_iff :
    (s c a : Bool)
    → ((if not s && not c then false else a) ≡ true) ↔ (((s ≡ true) ⊎ (c ≡ true)) × (a ≡ true))
gate_iff true c a = (λ h. (inl refl, h), λ h. h.1)
gate_iff false true a = (λ h. (inr refl, h), λ h. h.1)
gate_iff false false a = (λ h. cc, λ (x, _). elim x [ inl e ↦ cc | inr e ↦ cc ])

module _ (semver : Text → Option Bool) (in_range : Text → Text → Bool) where
  -- A request that reads as numbers, and whose suffix has none of the marks of a range, is matched
  -- by a release of a valid version exactly when the version is the normalized request, or goes on
  -- after it with another component or with build metadata, and is no prerelease that the request
  -- does not ask for.
  pub matches_request_iff :
      (release : Release) (request r : Text) (stable : Bool)
      → numeric_request request ≡ some r
      → semver release.version ≡ some stable
      → any is_range_byte r ≡ false
      → (matches_request semver in_range release request ≡ true) ↔ (
          (release.version ≡ r)
          ⊎ (((stable ≡ true) ⊎ (contains_byte b'-' r ≡ true)) × Extends release.version r))
  unfolding matches_request
  matches_request_iff release request r stable n v p =
      let d = numeric_request-digit request r n in
      let b = at_boundary_iff release.version r in
      let t = text_eq_iff release.version r in
      let g =
        gate_iff stable (contains_byte b'-' r) (at_boundary (strip_prefix release.version r)) in
      rw (n, v, d, p, matches_request)
        (
          λ h. elim ((either_iff (text_eq release.version r) _).0 h) [
            | inl e ↦ inl (t.0 e)
            | inr k ↦ let (x, y) = g.0 k in inr (x, b.0 y)
          ],
          λ h.
              (either_iff (text_eq release.version r) _).1
                (elim h [ inl e ↦ inl (t.1 e) | inr (x, y) ↦ inr (g.1 (x, b.1 y)) ]),
        )
