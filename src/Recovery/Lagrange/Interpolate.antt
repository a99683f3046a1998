-- ===== src/Recovery/Lagrange/Interpolate.antt =====
-- The coefficients of `lagrange_coefficient` interpolate at 0.
use generalised_elgamal_voti.Shared.{
  ℕ, zero, suc, ◌+◌, ◌-◌, ◌*◌, ◌%◌, ◌<◌, ◌≡◌, ◌≢◌, inl, inr, refl, sym, ap, subst, arith, List, [],
  ◌∷◌, length, All, Elem, Distinct, ok,
}
use generalised_elgamal_voti.Modular.{
  Congruent, Congruent-refl, Congruent-sym, Congruent-trans, Congruent-of_eq, Congruent-mul,
  Congruent-scale, Congruent-add, mod-Congruent,
}
use generalised_elgamal_voti.Modular.Inverse.{
  mod_inverse_total, mod_inverse-Congruent, no_common_factor,
}
use generalised_elgamal_voti.Modular.Interpolation.{
  DegreeBelow, sum-DegreeBelow, scale-DegreeBelow, Apart, PairwiseApart, zero_of_roots,
}
use generalised_elgamal_voti.Recovery.Defs.{lagrange_terms, lagrange_coefficient}
use generalised_elgamal_voti.Recovery.Lagrange.Basis.{
  node_product, lagrange_terms-Congruent, node_product-DegreeBelow-length, node_product-zero,
  node_product-unit,
}

-- Members of the list are apart from each other.
abbrev pub AllApart : ℕ → List ℕ → Type 0
AllApart q ids = (i j : ℕ) → Elem i ids → Elem j ids → i ≢ j → Apart q i j

pub All-of-members : (P : ℕ → Type 0) (xs : List ℕ) → ((x : ℕ) → Elem x xs → P x) → All P xs
All-of-members P [] h = tt
All-of-members P (x ∷ xs) h = (h x (inl refl), All-of-members P xs (λ y m. h y (inr m)))

AllApart→PairwiseApart : (q : ℕ) (xs : List ℕ) → Distinct xs → AllApart q xs → PairwiseApart q xs
AllApart→PairwiseApart q [] d gaps = tt
AllApart→PairwiseApart q (x ∷ xs) d gaps = (
  All-of-members (λ y. Apart q y x) xs
      (λ y m. gaps y x (inr m) (inl refl) (λ e. d.0 (subst (λ z. Elem z xs) e m))),
  AllApart→PairwiseApart q xs d.1 (λ i j mi mj. gaps i j (inr mi) (inr mj)),
)

module _ (q : ℕ) (q_pos : 0 < q) (ids : List ℕ) (gaps : AllApart q ids) where
  -- What the code computes for `j`: a coefficient with an inverse of the denominator.
  pub record Coefficient (j : ℕ) : Type 0 where
    pub value : ℕ
    pub returned : lagrange_coefficient j ids q ≡ ok value
    pub inverse : ℕ
    pub inverts : Congruent q (inverse * node_product q j ids j) 1
    pub at_zero : Congruent q value (inverse * node_product q j ids 0)

  denominator_unit :
      (j : ℕ) → Elem j ids → (y : ℕ) × Congruent q (y * (lagrange_terms q j 1 1 ids).1) 1
  denominator_unit j m =
      let (y, e) = node_product-unit q q_pos j ids (
        All-of-members (λ k. k ≢ j → Apart q j k) ids
          (λ k mk ne. gaps j k m mk (λ p. ne (sym p)))) in
      (
        y,
        Congruent-trans q
            (Congruent-mul q (Congruent-refl q y) ((lagrange_terms-Congruent q q_pos j 1 1 ids).1))
            (Congruent-trans q (Congruent-of_eq q _ _ (omega arith)) e),
      )

  -- The call does not raise.
  pub coefficient : (j : ℕ) → Elem j ids → Coefficient j
  unfolding lagrange_coefficient
  coefficient j m =
      let (num, den) = lagrange_terms q j 1 1 ids in
      let (y, unit) = denominator_unit j m in
      let (inv, e) = mod_inverse_total q q_pos den (no_common_factor q q_pos den y unit) in
      let c : Congruent q (inv * den) 1 = mod_inverse-Congruent q q_pos den e in
      let (n, d) = lagrange_terms-Congruent q q_pos j 1 1 ids in
      record {
        value = (num * inv) % q;
        returned = rw e;
        inverse = inv;
        inverts =
            Congruent-trans q (Congruent-of_eq q _ _ (omega arith))
              (Congruent-trans q (Congruent-mul q (Congruent-refl q inv) (Congruent-sym q d)) c);
        at_zero =
            Congruent-trans q (mod-Congruent q (num * inv))
              (Congruent-trans q (Congruent-scale q inv n) (Congruent-of_eq q _ _ (omega arith)));
      }

  abbrev inverse_of : (j : ℕ) → Elem j ids → ℕ
  inverse_of j m = (coefficient j m).inverse

  -- The interpolating polynomial over a part of the indices.
  unfoldable pub interpolate : (js : List ℕ) → ((j : ℕ) → Elem j js → Elem j ids) → (ℕ → ℕ) → ℕ → ℕ
  interpolate [] sub f x = 0
  interpolate (j ∷ js) sub f x =
      f j * inverse_of j (sub j (inl refl)) * node_product q j ids x
      + interpolate js (λ k m. sub k (inr m)) f x

  interpolate-DegreeBelow :
      (js : List ℕ) (sub : (j : ℕ) → Elem j js → Elem j ids) (f : ℕ → ℕ)
      → DegreeBelow q (length ids) (interpolate js sub f)
  unfolding interpolate
  interpolate-DegreeBelow [] sub f = zero_function (length ids)
    where
      zero_function : (n : ℕ) → DegreeBelow q n (λ x. 0)
      zero_function zero = λ x. Congruent-refl q 0
      zero_function (suc n) =
          λ a. (λ x. 0, zero_function n, λ x. Congruent-of_eq q _ _ (omega arith))
  interpolate-DegreeBelow (j ∷ js) sub f =
      sum-DegreeBelow q (length ids) _ _
        (scale-DegreeBelow q (length ids) (f j * inverse_of j (sub j (inl refl)))
          (node_product q j ids) (node_product-DegreeBelow-length q q_pos j ids (sub j (inl refl))))
        (interpolate-DegreeBelow js (λ k m. sub k (inr m)) f)

  -- At an index that is not among `js` the polynomial vanishes.
  interpolate-zero :
      (i : ℕ) (js : List ℕ) (sub : (j : ℕ) → Elem j js → Elem j ids) (f : ℕ → ℕ)
      → Elem i ids
      → ¬ Elem i js
      → Congruent q (interpolate js sub f i) 0
  unfolding interpolate
  interpolate-zero i [] sub f m out = Congruent-refl q 0
  interpolate-zero i (j ∷ js) sub f m out =
      Congruent-trans q
        (Congruent-add q
          (Congruent-mul q (Congruent-refl q (f j * inverse_of j (sub j (inl refl))))
            (node_product-zero q q_pos i j ids (λ e. out (inl e)) m))
          (interpolate-zero i js (λ k n. sub k (inr n)) f m (λ n. out (inr n))))
        (Congruent-of_eq q _ _ (omega arith))

  -- At an index among `js` it takes the value of `f`.
  interpolate-value :
      (i : ℕ) (js : List ℕ) (sub : (j : ℕ) → Elem j js → Elem j ids) (f : ℕ → ℕ)
      → Distinct js
      → Elem i js
      → Congruent q (interpolate js sub f i) (f i)
  unfolding interpolate
  interpolate-value i [] sub f d m = absurd m
  interpolate-value i (j ∷ js) sub f d (inl e) =
      subst (λ z. Congruent q (interpolate (j ∷ js) sub f z) (f z)) (sym e)
        (Congruent-trans q (Congruent-add q here rest) (Congruent-of_eq q _ _ (omega arith)))
    where
      here : Congruent q (f j * inverse_of j (sub j (inl refl)) * node_product q j ids j) (f j * 1)
      here =
          Congruent-trans q (Congruent-of_eq q _ _ (omega arith))
            (Congruent-mul q (Congruent-refl q (f j)) (coefficient j (sub j (inl refl))).inverts)

      rest : Congruent q (interpolate js (λ k n. sub k (inr n)) f j) 0
      rest = interpolate-zero j js (λ k n. sub k (inr n)) f (sub j (inl refl)) d.0
  interpolate-value i (j ∷ js) sub f d (inr m) =
      Congruent-trans q
        (Congruent-add q
          (Congruent-mul q (Congruent-refl q (f j * inverse_of j (sub j (inl refl)))) (
            node_product-zero q q_pos i j ids (λ e. d.0 (subst (λ z. Elem z js) e m))
              (sub i (inr m))))
          (interpolate-value i js (λ k n. sub k (inr n)) f d.1 m))
        (Congruent-of_eq q _ _ (omega arith))

  agree :
      (js : List ℕ) (sub : (j : ℕ) → Elem j js → Elem j ids) (f : ℕ → ℕ)
      → ((i : ℕ) → Elem i js → Congruent q (interpolate ids (λ j m. m) f i) (f i))
      → All (λ i. Congruent q (interpolate ids (λ j m. m) f i + (q - 1) * f i) 0) js
  agree [] sub f h = tt
  agree (i ∷ js) sub f h = (
    (let c = h i (inl refl) in
        record {
          left = c.left;
          right = c.right + f i;
          same = omega (arith, c.same, ap (λ (t : ℕ). t * f i) pred_suc);
        }),
    agree js (λ j m. sub j (inr m)) f (λ j m. h j (inr m)),
  )
    where
      pred_suc : q - 1 + 1 ≡ q
      pred_suc = omega arith

  -- A polynomial function of degree below the number of indices is what the coefficients
  -- interpolate.
  pub interpolate-Congruent :
      (f : ℕ → ℕ)
      → DegreeBelow q (length ids) f
      → Distinct ids
      → (x : ℕ) → Congruent q (interpolate ids (λ j m. m) f x) (f x)
  interpolate-Congruent f d distinct x =
      let c : Congruent q (interpolate ids (λ j m. m) f x + (q - 1) * f x) 0 =
        zero_of_roots q (length ids) (λ y. interpolate ids (λ j m. m) f y + (q - 1) * f y) ids
          (sum-DegreeBelow q (length ids) _ _ (interpolate-DegreeBelow ids (λ j m. m) f)
            (scale-DegreeBelow q (length ids) (q - 1) f d))
          (omega arith) (AllApart→PairwiseApart q ids distinct gaps)
          (agree ids (λ j m. m) f (λ i m. interpolate-value i ids (λ j n. n) f distinct m)) x in
      record {
        left = c.left + f x;
        right = c.right;
        same = omega (arith, c.same, ap (λ (t : ℕ). t * f x) pred_suc);
      }
    where
      pred_suc : q - 1 + 1 ≡ q
      pred_suc = omega arith
