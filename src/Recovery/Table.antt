-- ===== src/Recovery/Table.antt =====
-- crypto/recovery.py: the table of baby steps.
use native.Mathlib.Nat.{mod-eq_of_lt}
use generalised_elgamal_voti.Shared.{
  ℕ, zero, suc, ◌+◌, ◌-◌, ◌≤◌, ◌<◌, ◌≡◌, ◌⊎◌, inl, inr, sym, ap, subst, ◌∙◌, arith, [], ◌∷◌, length,
  some, ◌==◌, ==_iff, Bool-cases, is_yes→holds,
}
use generalised_elgamal_voti.Shared.Bytes.{Bytes}
use generalised_elgamal_voti.Shared.Keys.{number_key, bytes_key, same_list, same_list_iff}
use generalised_elgamal_voti.Shared.Dict.{
  Dict, lookup, insert, lookup-insert_self, lookup-insert_ne,
}
use generalised_elgamal_voti.Modular.{mod_eq}
use generalised_elgamal_voti.Params.{curve_order}
use generalised_elgamal_voti.Points.{
  PointLibrary, IsPrimeOrderGroup, HasCodec, mul, add, neg, is_identity,
}
use generalised_elgamal_voti.Points.Laws.{mul-add, mul-one, mul-zero, add-neg_cancel, mul_injective}
use generalised_elgamal_voti.Points.Codec.{to_compressed_injective}
use generalised_elgamal_voti.Recovery.Defs.{
  key, BabyStepTable, baby_steps, table_size, build_baby_step_table,
}

module _ (L : PointLibrary) (laws : IsPrimeOrderGroup L) (codec : HasCodec L 96) where
  pub key_cases :
      (P : L.Point) → ((P ≡ L.identity) × (key L P ≡ 0 ∷ [])) ⊎ (key L P ≡ L.to_compressed_bytes P)
  unfolding key is_identity
  key_cases P = elim (Bool-cases (is_identity L P)) [
    | inl t ↦ inl (is_yes→holds (L.equal P L.identity) t, rw t)
    | inr f ↦ inr (rw f)
  ]

  pub key_injective : (P Q : L.Point) → key L P ≡ key L Q → P ≡ Q
  key_injective P Q e = elim (key_cases P) [
    | inl (p, kp) ↦ elim (key_cases Q) [
      | inl (r, kr) ↦ p ∙ sym r
      | inr kr ↦ absurd (different Q (sym kp ∙ e ∙ kr))
    ]
    | inr kp ↦ elim (key_cases Q) [
      | inl (r, kr) ↦ absurd (different P (sym kr ∙ sym e ∙ kp))
      | inr kr ↦ to_compressed_injective L 96 codec P Q (sym kp ∙ e ∙ kr)
    ]
  ]
    where
      different : (R : L.Point) → 0 ∷ [] ≡ L.to_compressed_bytes R → ⊥
      different R h = omega (arith, ap length h, codec.encoded_length R)

  abbrev pub step : ℕ → L.Point
  step = mul L L.generator

  -- The table of the first `j` baby steps: what is found is right, and each of them is found.
  pub record IsTable (j : ℕ) (table : Dict Bytes ℕ) : Type 0 where
    pub right : (P : L.Point) (m : ℕ) → lookup (key L P) table ≡ some m → (P ≡ step m) × (m < j)
    pub found : (m : ℕ) → m < j → (k : ℕ) × (lookup (key L (step m)) table ≡ some k)

  pub insert-IsTable :
      (j : ℕ) (table : Dict Bytes ℕ)
      → IsTable j table
      → IsTable (j + 1) (insert (key L (step j)) j table)
  insert-IsTable j table t = record { right = right_step; found = found_step }
    where
      right_step :
          (P : L.Point) (m : ℕ)
          → lookup (key L P) (insert (key L (step j)) j table) ≡ some m
          → (P ≡ step m) × (m < j + 1)
      right_step P m h = elim (Bool-cases (same_list (key L P) (key L (step j)))) [
        | inl same ↦
            let keys_eq = (same_list_iff (key L P) (key L (step j))).0 same in
            let m_eq : j ≡ m = cc (
              lookup-insert_self (key L (step j)) j table,
              subst (λ k. lookup k (insert (key L (step j)) j table) ≡ some m) keys_eq h,
            ) in
            (key_injective P (step j) keys_eq ∙ ap step m_eq, omega arith)
        | inr other ↦
            let (p, lt) =
              t.right P m (sym (lookup-insert_ne (key L (step j)) (key L P) j table other) ∙ h) in
            (p, omega arith)
      ]

      found_step :
          (m : ℕ)
          → m < j + 1
          → (k : ℕ) × (lookup (key L (step m)) (insert (key L (step j)) j table) ≡ some k)
      found_step m h = elim (Bool-cases (m == j)) [
        | inl same ↦ (
          j,
          subst (λ i. lookup (key L (step i)) (insert (key L (step j)) j table) ≡ some j)
              (sym ((==_iff m j).0 same)) (lookup-insert_self (key L (step j)) j table),
        )
        | inr other ↦ elim (Bool-cases (same_list (key L (step m)) (key L (step j)))) [
          | inl keys_same ↦ (
            j,
            subst (λ k. lookup k (insert (key L (step j)) j table) ≡ some j)
                (sym ((same_list_iff (key L (step m)) (key L (step j))).0 keys_same))
                (lookup-insert_self (key L (step j)) j table),
          )
          | inr keys_differ ↦
              let (k, e) = t.found m (ground arith) in
              (k, lookup-insert_ne (key L (step j)) (key L (step m)) j table keys_differ ∙ e)
        ]
      ]

  pub baby_steps-IsTable :
      (rounds j : ℕ) (table : Dict Bytes ℕ)
      → IsTable j table
      → IsTable (j + rounds) (baby_steps L rounds j (step j) table)
  unfolding baby_steps
  baby_steps-IsTable zero j table t = let e : j + 0 ≡ j = omega arith in rw e t
  baby_steps-IsTable (suc rounds) j table t =
      let e : j + suc rounds ≡ j + 1 + rounds = omega arith in
      let p : add L (step j) L.generator ≡ step (j + 1) =
        sym (mul-add L laws L.generator j 1 ∙ ap (add L (step j)) (mul-one L laws L.generator)) in
      rw (e, p)
        (baby_steps-IsTable rounds (j + 1) (insert (key L (step j)) j table)
          (insert-IsTable j table t))

  abbrev pub table_for : ℕ → BabyStepTable L
  table_for = build_baby_step_table L

  pub table-IsTable : (max_val : ℕ) → IsTable (table_size L max_val) (table_for max_val).table
  unfolding build_baby_step_table
  table-IsTable max_val =
      subst (λ P. IsTable n (baby_steps L n 0 P [])) (mul-zero L laws L.generator)
        (subst (λ k. IsTable k (baby_steps L n 0 (step 0) [])) count
          (baby_steps-IsTable n 0 [] empty))
    where
      n : ℕ
      n = table_size L max_val

      count : 0 + n ≡ n
      count = omega arith

      empty : IsTable 0 []
      empty = record { right = λ P m h. cc; found = λ m h. absurd (omega arith) }

  -- A giant step goes down by `n`.
  pub giant_step : (n a : ℕ) → n ≤ a → add L (step a) (neg L (step n)) ≡ step (a - n)
  giant_step n a h =
      let e : a ≡ a - n + n = omega arith in
      ap (λ (t : ℕ). add L (step t) (neg L (step n))) e
      ∙ ap (λ P. add L P (neg L (step n))) (mul-add L laws L.generator (a - n) n)
      ∙ add-neg_cancel L laws (step (a - n)) (step n)

  -- Exponents below the order are determined by their multiples.
  pub step_injective : (a b : ℕ) → a < curve_order → b < curve_order → step a ≡ step b → a ≡ b
  step_injective a b ha hb e =
      sym (mod-eq_of_lt ha) ∙ mod_eq curve_order (mul_injective L laws a b e) ∙ mod-eq_of_lt hb
