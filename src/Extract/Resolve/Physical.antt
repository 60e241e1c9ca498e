-- ===== src/Extract/Resolve/Physical.antt =====
-- The result of `resolved_link` of src/install_extract.rs as a place in the file system.
use mathlib.Core.List.{append_assoc, append-nil}
use mathlib.Core.Path.{subst}
use packslip.Base.{
  ℕ, zero, suc, ◌≡◌, refl, sym, ap, ◌∙◌, List, [], ◌∷◌, ◌++◌, map, some, ok, Option-cases,
  ok-injective, inl, inr, arith, ◌⊎◌,
}
use packslip.Base.Text.{Text}
use packslip.Extract.Names.{Components, pop}
use packslip.Extract.Names.Links.{pop-eq-some, pop-concat, pop-eq-none}
use packslip.Extract.Resolve.{
  Component, root_dir, cur_dir, parent_dir, normal, Look, link, other, not_found, failed, resolve,
  resolved_link,
}

Look-cases :
    (l : Look)
    → ((t : List Component) × (l ≡ link t)) ⊎ (l ≡ other) ⊎ (l ≡ not_found) ⊎ (l ≡ failed)
Look-cases (link t) = inl (t, refl)
Look-cases other = inr (inl refl)
Look-cases not_found = inr (inr (inl refl))
Look-cases failed = inr (inr (inr refl))

module _ (look : Components → Look) where
  abbrev pub IsPlain : Components → Type 0
  IsPlain p = (look p ≡ other) ⊎ (look p ≡ not_found)

  -- No symbolic link stands on the way to the path, nor at its end.
  abbrev pub IsPhysical : Components → Type 0
  IsPhysical p =
      (above : Components) (c : Text) (below : Components)
      → p ≡ (above ++ (c ∷ [])) ++ below
      → IsPlain (above ++ (c ∷ []))

  nil-IsPhysical : IsPhysical []
  nil-IsPhysical [] c below e = cc
  nil-IsPhysical (a ∷ above) c below e = cc

  pop-IsPhysical :
      (p : Components) {up : Components} → pop p ≡ some up → IsPhysical p → IsPhysical up
  pop-IsPhysical p {up} h ph above c below e =
      let (x, q) = pop-eq-some p h in
      ph above c (below ++ (x ∷ []))
        (q ∙ ap (λ r. r ++ (x ∷ [])) e ∙ append_assoc (above ++ (c ∷ [])) below (x ∷ []))

  concat-IsPhysical :
      (p : Components) (d : Text)
      → IsPhysical p
      → IsPlain (p ++ (d ∷ []))
      → IsPhysical (p ++ (d ∷ []))
  concat-IsPhysical p d ph plain above c below e = elim (Option-cases (pop below)) [
    | inl z ↦
        subst IsPlain
          (e
            ∙ ap (λ r. (above ++ (c ∷ [])) ++ r) (pop-eq-none below z)
            ∙ append-nil (above ++ (c ∷ [])))
          plain
    | inr (below', z) ↦
        let (x, q) = pop-eq-some below z in
        let whole : p ++ (d ∷ []) ≡ ((above ++ (c ∷ [])) ++ below') ++ (x ∷ []) =
          e
          ∙ ap (λ r. (above ++ (c ∷ [])) ++ r) q
          ∙ sym (append_assoc (above ++ (c ∷ [])) below' (x ∷ [])) in
        let same : some p ≡ some ((above ++ (c ∷ [])) ++ below') =
          sym (pop-concat p d) ∙ ap pop whole ∙ pop-concat ((above ++ (c ∷ [])) ++ below') x in
        ph above c below' (ground arith)
  ]

  resolve-IsPhysical :
      (left : ℕ) (resolved : Components) (pending : List Component) {r : Components}
      → IsPhysical resolved
      → resolve look left resolved pending ≡ ok r
      → IsPhysical r
  unfolding resolve
  resolve-IsPhysical left resolved [] ph h = subst IsPhysical (ok-injective h) ph
  resolve-IsPhysical left resolved (cur_dir ∷ pending) ph h =
      resolve-IsPhysical left resolved pending ph h
  resolve-IsPhysical left resolved (root_dir ∷ pending) ph h = cc
  resolve-IsPhysical left resolved (parent_dir ∷ pending) ph h =
      elim (Option-cases (pop resolved)) [
        | inl e ↦ cc (rw (e, resolve) at h)
        | inr (up, e) ↦
            resolve-IsPhysical left up pending (pop-IsPhysical resolved e ph) (rw (e, resolve) at h)
      ]
  resolve-IsPhysical zero resolved (normal c ∷ pending) ph h =
      let next = concat-IsPhysical resolved c ph in
      elim (Look-cases (look (resolved ++ (c ∷ [])))) [
        | inl (t, e) ↦ cc (rw (e, resolve) at h)
        | inr (inl e) ↦ resolve-IsPhysical zero _ pending (next (inl e)) (rw (e, resolve) at h)
        | inr (inr (inl e)) ↦
            resolve-IsPhysical zero _ pending (next (inr e)) (rw (e, resolve) at h)
        | inr (inr (inr e)) ↦ cc (rw (e, resolve) at h)
      ]
  resolve-IsPhysical (suc left) resolved (normal c ∷ pending) ph h =
      let next = concat-IsPhysical resolved c ph in
      elim (Look-cases (look (resolved ++ (c ∷ [])))) [
        | inl (t, e) ↦ resolve-IsPhysical left resolved (t ++ pending) ph (rw (e, resolve) at h)
        | inr (inl e) ↦
            resolve-IsPhysical (suc left) _ pending (next (inl e)) (rw (e, resolve) at h)
        | inr (inr (inl e)) ↦
            resolve-IsPhysical (suc left) _ pending (next (inr e)) (rw (e, resolve) at h)
        | inr (inr (inr e)) ↦ cc (rw (e, resolve) at h)
      ]

  -- Names of which none is a link are walked one after another, and the walk is kept.
  resolve_plain :
      (left : ℕ) (rest above : Components)
      → IsPhysical (above ++ rest)
      → resolve look left above (map normal rest) ≡ ok (above ++ rest)
  unfolding resolve
  resolve_plain left [] above ph = ap ok (sym (append-nil above))
  resolve_plain zero (c ∷ rest) above ph =
      let whole = append_assoc above (c ∷ []) rest in
      let on =
        resolve_plain zero rest (above ++ (c ∷ [])) (subst IsPhysical (sym whole) ph)
        ∙ ap ok whole in
      elim (ph above c rest (sym whole)) [ inl e ↦ rw e on | inr e ↦ rw e on ]
  resolve_plain (suc left) (c ∷ rest) above ph =
      let whole = append_assoc above (c ∷ []) rest in
      let on =
        resolve_plain (suc left) rest (above ++ (c ∷ [])) (subst IsPhysical (sym whole) ph)
        ∙ ap ok whole in
      elim (ph above c rest (sym whole)) [ inl e ↦ rw e on | inr e ↦ rw e on ]

  -- In a file system that does not change during the walk, a resolved link has no symbolic link
  -- on its way below the root, nor at its end, and so resolves to itself.
  pub resolved_link-IsPhysical :
      (relative : Components) {r : Components}
      → resolved_link look relative ≡ ok r
      → IsPhysical r × (resolved_link look r ≡ ok r)
  unfolding resolved_link
  resolved_link-IsPhysical relative {r} h =
      let ph = resolve-IsPhysical 128 [] (map normal relative) nil-IsPhysical h in
      (ph, resolve_plain 128 r [] ph)
