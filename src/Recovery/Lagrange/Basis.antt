-- ===== src/Recovery/Lagrange/Basis.antt =====
-- The products of `lagrange_coefficient` as polynomial functions modulo `q`.
use generalised_elgamal_voti.Shared.{
  ℕ, suc, ◌+◌, ◌-◌, ◌*◌, ◌<◌, ◌≡◌, ◌≢◌, inl, inr, ap, subst, fun_ext, ◌∙◌, arith, false, List, [],
  ◌∷◌, length, All, Elem, ◌==◌, ==_iff, if◌then◌else◌, Bool-cases,
}
use generalised_elgamal_voti.Shared.Int.{pos, sub_ℕ, ◌*ℤ◌, floor_mod}
use generalised_elgamal_voti.Modular.{
  Congruent, Congruent-refl, Congruent-trans, Congruent-of_eq, Congruent-mul, Congruent-scale,
}
use generalised_elgamal_voti.Modular.Signed.{floor_mod-sub-Congruent}
use generalised_elgamal_voti.Modular.Interpolation.{DegreeBelow, weaken, linear-DegreeBelow, Apart}
use generalised_elgamal_voti.Recovery.Defs.{lagrange_terms}

-- The product of `x - k` over the indices other than `j`.
unfoldable pub node_product : ℕ → ℕ → List ℕ → ℕ → ℕ
node_product q j [] x = 1
node_product q j (k ∷ ids) x =
    if k == j then node_product q j ids x else (x + (q - 1) * k) * node_product q j ids x

module _ (q : ℕ) (q_pos : 0 < q) where
  difference : (x a k : ℕ) → Congruent q (floor_mod (pos x *ℤ sub_ℕ a k) q) (x * (a + (q - 1) * k))
  difference x a k =
      let c = floor_mod-sub-Congruent q q_pos x a k in
      record {
        left = c.left + x * k;
        right = c.right;
        same = omega (arith, c.same, ap (λ (t : ℕ). t * (x * k)) pred_suc);
      }
    where
      pred_suc : q - 1 + 1 ≡ q
      pred_suc = omega arith

  factor_step :
      (x y a k p : ℕ)
      → Congruent q y (floor_mod (pos x *ℤ sub_ℕ a k) q * p)
      → Congruent q y (x * ((a + (q - 1) * k) * p))
  factor_step x y a k p c = Congruent-trans q c (
      Congruent-trans q (Congruent-scale q p (difference x a k))
        (Congruent-of_eq q _ _ (omega arith)))

  -- The two results of the loop.
  pub lagrange_terms-Congruent :
      (j num den : ℕ) (ids : List ℕ)
      → Congruent q (lagrange_terms q j num den ids).0 (num * node_product q j ids 0)
        × Congruent q (lagrange_terms q j num den ids).1 (den * node_product q j ids j)
  unfolding lagrange_terms node_product
  lagrange_terms-Congruent j num den [] =
      (Congruent-of_eq q num (num * 1) (omega arith), Congruent-of_eq q den (den * 1) (omega arith))
  lagrange_terms-Congruent j num den (k ∷ ids) = elim (Bool-cases (k == j)) [
    | inl skip ↦ rw (skip, lagrange_terms) (lagrange_terms-Congruent j num den ids)
    | inr other ↦
        rw (other, lagrange_terms)
          (let (n, d) =
              lagrange_terms-Congruent j (floor_mod (pos num *ℤ sub_ℕ 0 k) q)
                (floor_mod (pos den *ℤ sub_ℕ j k) q) ids in
            (factor_step num _ 0 k _ n, factor_step den _ j k _ d))
  ]

  linear : (n k : ℕ) (f : ℕ → ℕ) → DegreeBelow q n f → DegreeBelow q (suc n) (λ x. (x + k) * f x)
  linear n k f d =
      subst (DegreeBelow q (suc n)) (fun_ext λ x. omega arith) (linear-DegreeBelow q n 0 k f d)

  pub node_product-DegreeBelow :
      (j : ℕ) (ids : List ℕ) → DegreeBelow q (suc (length ids)) (node_product q j ids)
  unfolding node_product
  node_product-DegreeBelow j [] =
      λ a. (λ x. 0, λ x. Congruent-refl q 0, λ x. Congruent-of_eq q _ _ (omega arith))
  node_product-DegreeBelow j (k ∷ ids) = elim (Bool-cases (k == j)) [
    | inl skip ↦
        subst (DegreeBelow q (suc (suc (length ids)))) (fun_ext λ x. rw skip)
          (weaken q (suc (length ids)) (node_product q j ids) (node_product-DegreeBelow j ids))
    | inr other ↦ subst (DegreeBelow q (suc (suc (length ids)))) (fun_ext λ x. rw other) (
        linear (suc (length ids)) ((q - 1) * k) (node_product q j ids)
          (node_product-DegreeBelow j ids))
  ]

  -- One index is left out, so the degree is below the number of indices.
  pub node_product-DegreeBelow-length :
      (j : ℕ) (ids : List ℕ) → Elem j ids → DegreeBelow q (length ids) (node_product q j ids)
  unfolding node_product
  node_product-DegreeBelow-length j [] m = absurd m
  node_product-DegreeBelow-length j (k ∷ ids) m = elim (Bool-cases (k == j)) [
    | inl skip ↦
        subst (DegreeBelow q (suc (length ids))) (fun_ext λ x. rw skip)
          (node_product-DegreeBelow j ids)
    | inr other ↦ subst (DegreeBelow q (suc (length ids))) (fun_ext λ x. rw other) (
        linear (length ids) ((q - 1) * k) (node_product q j ids)
          (node_product-DegreeBelow-length j ids (later m other)))
  ]
    where
      later : Elem j (k ∷ ids) → (k == j) ≡ false → Elem j ids
      later (inl e) other = absurd (ground arith)
      later (inr r) other = r

  -- At every other index the product vanishes.
  pub node_product-zero :
      (i j : ℕ) (ids : List ℕ) → i ≢ j → Elem i ids → Congruent q (node_product q j ids i) 0
  unfolding node_product
  node_product-zero i j [] ne m = absurd m
  node_product-zero i j (k ∷ ids) ne (inl e) = elim (Bool-cases (k == j)) [
    | inl skip ↦ absurd (ne (e ∙ (==_iff k j).0 skip))
    | inr other ↦ rw other (record { left = 0; right = k * node_product q j ids i; same = here })
  ]
    where
      here : (i + (q - 1) * k) * node_product q j ids i + 0 * q ≡ 0 + k * node_product q j ids i * q
      here = rw e (omega (arith, ap (λ (t : ℕ). t * (k * node_product q j ids k)) pred_suc))
        where
          pred_suc : q - 1 + 1 ≡ q
          pred_suc = omega arith
  node_product-zero i j (k ∷ ids) ne (inr m) = elim (Bool-cases (k == j)) [
    | inl skip ↦ rw skip (node_product-zero i j ids ne m)
    | inr other ↦ rw other (
        Congruent-trans q
          (Congruent-mul q (Congruent-refl q (i + (q - 1) * k)) (node_product-zero i j ids ne m))
          (Congruent-of_eq q _ _ (omega arith)))
  ]

  unit_factor : (j k : ℕ) (gap : Apart q j k) → Congruent q (gap.inverse * (j + (q - 1) * k)) 1
  unit_factor j k gap = record {
    left = gap.law.left;
    right = gap.law.right + gap.inverse * k;
    same = omega (arith, gap.law.same, ap (λ (t : ℕ). t * (gap.inverse * k)) pred_suc);
  }
    where
      pred_suc : q - 1 + 1 ≡ q
      pred_suc = omega arith

  -- Where the indices are apart, the denominator has an inverse.
  pub node_product-unit :
      (j : ℕ) (ids : List ℕ)
      → All (λ k. k ≢ j → Apart q j k) ids
      → (y : ℕ) × Congruent q (y * node_product q j ids j) 1
  unfolding node_product
  node_product-unit j [] gaps = (1, Congruent-of_eq q _ _ (omega arith))
  node_product-unit j (k ∷ ids) gaps = elim (Bool-cases (k == j)) [
    | inl skip ↦ rw skip (node_product-unit j ids gaps.1)
    | inr other ↦
        let gap = gaps.0 (ground arith) in
        let (y, e) = node_product-unit j ids gaps.1 in
        (
          gap.inverse * y,
          rw other (
              Congruent-trans q (Congruent-of_eq q _ _ (omega arith))
                (Congruent-mul q (unit_factor j k gap) e)),
        )
  ]
