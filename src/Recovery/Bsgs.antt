-- ===== src/Recovery/Bsgs.antt =====
-- crypto/recovery.py: baby steps and giant steps find every exponent up to the bound.
use generalised_elgamal_voti.Shared.{
  ℕ, zero, suc, ◌+◌, ◌-◌, ◌*◌, ◌≤◌, ◌<◌, ◌≡◌, ◌≢◌, ◌⊎◌, inl, inr, refl, sym, ap, ◌∙◌, arith, true,
  false, none, some, leb, leb→le, Bool-cases, Option-cases, holds→is_yes, is_yes→holds,
}
use generalised_elgamal_voti.Shared.Keys.{number_key, bytes_key}
use generalised_elgamal_voti.Shared.Dict.{lookup}
use generalised_elgamal_voti.Params.{curve_order, curve_order_big}
use generalised_elgamal_voti.Points.{
  PointLibrary, IsPrimeOrderGroup, HasCodec, add, neg, is_identity,
}
use generalised_elgamal_voti.Points.Laws.{mul-zero}
use generalised_elgamal_voti.Recovery.Defs.{
  isqrt, key, BabyStepTable, table_size, build_baby_step_table, giant_steps,
  baby_step_giant_step_with_table, baby_step_giant_step,
}
use generalised_elgamal_voti.Recovery.Table.{
  step, table_for, table-IsTable, giant_step, step_injective, IsTable,
}

-- `isqrt n` is the integer square root.
pub isqrt_bounds : (n : ℕ) → (isqrt n * isqrt n ≤ n) × (n < (isqrt n + 1) * (isqrt n + 1))
unfolding isqrt
isqrt_bounds zero = (omega arith, omega arith)
isqrt_bounds (suc n) =
    let (low, high) = isqrt_bounds n in
    elim (Bool-cases (leb ((isqrt n + 1) * (isqrt n + 1)) (suc n))) [
      | inl up ↦ rw up (ground arith, omega (arith, high))
      | inr stay ↦ rw stay (omega arith, ground arith)
    ]

module _ (L : PointLibrary) (laws : IsPrimeOrderGroup L) (codec : HasCodec L 96) where
  module _ (t : BabyStepTable L) (table : IsTable L laws codec t.n t.table)
      (n_small : t.n ≤ curve_order) (down : t.neg_step ≡ neg L (step L laws codec t.n)) (m : ℕ)
      (small : m ≤ t.max_val) (order : t.max_val < curve_order) where
    gamma : ℕ → L.Point
    gamma i = step L laws codec (m - i * t.n)

    next_gamma : (i : ℕ) → (i + 1) * t.n ≤ m → add L (gamma i) t.neg_step ≡ gamma (i + 1)
    unfolding gamma
    next_gamma i le =
        ap (add L (gamma i)) down
        ∙ giant_step L laws codec t.n (m - i * t.n) (omega arith)
        ∙ ap (step L laws codec) (omega arith)

    -- Where the table has no fitting entry, the target is a whole giant step L laws codec away.
    beyond :
        (i : ℕ)
        → i * t.n ≤ m
        → ((j : ℕ) → lookup (key L (gamma i)) t.table ≡ some j → t.max_val < i * t.n + j)
        → (i + 1) * t.n ≤ m
    unfolding gamma
    beyond i le far = elim split [
      | inl near ↦
          let (j, e) = table.found (m - i * t.n) near in
          let (p, lt) = table.right (gamma i) j e in
          let same : m - i * t.n ≡ j =
            step_injective L laws codec (m - i * t.n) j (omega arith) (omega arith) p in
          absurd (omega (arith, far j e))
      | inr off ↦ omega arith
    ]
      where
        split : (m - i * t.n < t.n) ⊎ (t.n ≤ m - i * t.n)
        split = grind arith

    hit :
        (i j : ℕ)
        → i * t.n ≤ m
        → lookup (key L (gamma i)) t.table ≡ some j
        → i * t.n + j ≤ t.max_val
        → i * t.n + j ≡ m
    unfolding gamma
    hit i j le e fits =
        let same : m - i * t.n ≡ j =
          step_injective L laws codec (m - i * t.n) j (omega arith) (omega arith)
            (table.right (gamma i) j e).0 in
        omega arith

    -- The walk returns the exponent.
    giant_steps-found :
        (rounds i : ℕ)
        → i * t.n ≤ m
        → m < (i + rounds) * t.n
        → giant_steps L t rounds i (gamma i) ≡ some m
    unfolding giant_steps
    giant_steps-found zero i le lt = absurd (omega (arith, lt))
    giant_steps-found (suc rounds) i le lt =
        let onward = λ (next : (i + 1) * t.n ≤ m).
          ap (giant_steps L t rounds (i + 1)) (next_gamma i next)
          ∙ giant_steps-found rounds (i + 1) next (omega (arith, lt)) in
        elim (Option-cases (lookup (key L (gamma i)) t.table)) [
          | inl missing ↦
              rw (missing, giant_steps)
                (onward (beyond i le (λ j e. absurd (absent (sym missing ∙ e)))))
          | inr (j, e) ↦ elim (Bool-cases (leb (i * t.n + j) t.max_val)) [
            | inl fits ↦
                rw (e, giant_steps)
                  (rw fits (ap some (hit i j le e (leb→le (i * t.n + j) t.max_val fits))))
            | inr over ↦
                rw (e, giant_steps)
                  (rw over (onward (beyond i le (λ k f. above (some-injective (sym e ∙ f)) over))))
          ]
        ]
      where
        absent : {j : ℕ} → none ≡ some j → ⊥
        absent h = cc

        some-injective : {j k : ℕ} → some j ≡ some k → j ≡ k
        some-injective h = cc

        above : {j k : ℕ} → j ≡ k → leb (i * t.n + j) t.max_val ≡ false → t.max_val < i * t.n + k
        above p h = ground arith

  identity_cases :
      (m : ℕ)
      → m < curve_order
      → ((is_identity L (step L laws codec m) ≡ true) × (m ≡ 0))
        ⊎ ((is_identity L (step L laws codec m) ≡ false) × (m ≢ 0))
  unfolding is_identity
  identity_cases m lt = elim (Bool-cases (is_identity L (step L laws codec m))) [
    | inl t ↦ inl (
      t,
      step_injective L laws codec m 0 lt (omega arith) (
          is_yes→holds (L.equal (step L laws codec m) L.identity) t
          ∙ sym (mul-zero L laws L.generator)),
    )
    | inr f ↦ inr (
      f,
      λ e. off (
          sym f
          ∙ holds→is_yes (L.equal (step L laws codec m) L.identity)
              (ap (step L laws codec) e ∙ mul-zero L laws L.generator)),
    )
  ]
    where
      off : false ≡ true → ⊥
      off h = cc

  table_size_bounds :
      (m max_val : ℕ)
      → m ≤ max_val
      → max_val < curve_order
      → m ≢ 0
      → (table_size L max_val ≤ curve_order)
        × (m < (0 + (table_size L max_val + 1)) * table_size L max_val)
  unfolding table_size
  table_size_bounds m max_val small order pos =
      let (low, high) = isqrt_bounds max_val in
      ground (arith, curve_order_big, room (isqrt max_val) low, wide (isqrt max_val) high)
    where
      room : (r : ℕ) → r * r ≤ max_val → r + 2 ≤ curve_order
      room r low = grind (arith, curve_order_big)

      wide : (r : ℕ) → max_val < (r + 1) * (r + 1) → m < (0 + (r + 2 + 1)) * (r + 2)
      wide r high = omega arith

  walk_found :
      (m max_val : ℕ)
      → m ≤ max_val
      → max_val < curve_order
      → m ≢ 0
      → giant_steps L
          (table_for L laws codec max_val)
          ((table_for L laws codec max_val).n + 1)
          0
          (step L laws codec m)
        ≡ some m
  unfolding build_baby_step_table gamma
  walk_found m max_val small order pos =
      let (fits, enough) = table_size_bounds m max_val small order pos in
      ap
        (λ (k : ℕ).
          giant_steps L (table_for L laws codec max_val) (table_size L max_val + 1) 0
            (step L laws codec k))
        start
      ∙ giant_steps-found (table_for L laws codec max_val) (table-IsTable L laws codec max_val) fits
          refl m small order (table_size L max_val + 1) 0 (omega arith) enough
    where
      start : m ≡ m - 0 * table_size L max_val
      start = omega arith

  -- A table that was built for a bound below the order finds every exponent up to the bound.
  pub baby_step_giant_step_with_table-found :
      (m max_val : ℕ)
      → m ≤ max_val
      → max_val < curve_order
      → baby_step_giant_step_with_table L (step L laws codec m) (build_baby_step_table L max_val)
        ≡ some m
  unfolding baby_step_giant_step_with_table build_baby_step_table
  baby_step_giant_step_with_table-found m max_val small order =
      elim (identity_cases m (omega arith)) [
        | inl (t, e) ↦ rw t (ground arith)
        | inr (f, ne) ↦ rw f (ground (arith, walk_found m max_val small order ne))
      ]

  -- Baby steps and giant steps find every exponent up to a bound below the curve order.
  pub baby_step_giant_step-found :
      (m max_val : ℕ)
      → m ≤ max_val
      → max_val < curve_order
      → baby_step_giant_step L (step L laws codec m) max_val ≡ some m
  unfolding baby_step_giant_step
  baby_step_giant_step-found m max_val small order = elim (identity_cases m (omega arith)) [
    | inl (t, e) ↦ rw t (ground arith)
    | inr (f, ne) ↦
        rw f (ground (arith, baby_step_giant_step_with_table-found m max_val small order))
  ]
