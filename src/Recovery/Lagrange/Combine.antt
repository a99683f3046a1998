-- ===== src/Recovery/Lagrange/Combine.antt =====
-- `combine_shares` on shares that lie on a polynomial.
use generalised_elgamal_voti.Shared.{
  ℕ, ◌*◌, ◌<◌, ◌≡◌, inl, inr, refl, sym, ap, ◌∙◌, arith, List, [], ◌∷◌, map, length, All, Elem,
  Distinct, ok,
}
use generalised_elgamal_voti.Modular.{Congruent, Congruent-trans, Congruent-of_eq, Congruent-mul}
use generalised_elgamal_voti.Modular.Interpolation.{DegreeBelow}
use generalised_elgamal_voti.Params.{curve_order, curve_order_big}
use generalised_elgamal_voti.Params.Factors.{indices-Apart}
use generalised_elgamal_voti.Points.{PointLibrary, IsPrimeOrderGroup, mul, add}
use generalised_elgamal_voti.Points.Laws.{
  mul_congr, mul-add, mul-mul, add_assoc, add-identity, mul-zero, identity-add,
}
use generalised_elgamal_voti.Recovery.Defs.{combine_from, combine_shares}
use generalised_elgamal_voti.Recovery.Lagrange.Basis.{node_product}
use generalised_elgamal_voti.Recovery.Lagrange.Interpolate.{
  AllApart, Coefficient, coefficient, interpolate, interpolate-Congruent,
}

-- Keyper indices: different numbers below 2 ^ 16.
pub record AreIndices (ids : List ℕ) : Type 0 where
  pub distinct : Distinct ids
  pub bounded : All (λ i. i < 65536) ids

bounded_of_member : (i : ℕ) (ids : List ℕ) → All (λ j. j < 65536) ids → Elem i ids → i < 65536
bounded_of_member i [] h m = absurd m
bounded_of_member i (j ∷ ids) h (inl e) = rw e h.0
bounded_of_member i (j ∷ ids) h (inr m) = bounded_of_member i ids h.1 m

AreIndices-AllApart : (ids : List ℕ) → AreIndices ids → AllApart curve_order ids
AreIndices-AllApart ids h i j mi mj ne =
    indices-Apart i j ne (bounded_of_member i ids h.bounded mi)
      (bounded_of_member j ids h.bounded mj)

order_pos : 0 < curve_order
order_pos = omega (arith, curve_order_big)

module _ (L : PointLibrary) (base : L.Point) where
  -- The decryption shares of the keypers `js`, by their secrets.
  abbrev pub shares_of : (ℕ → ℕ) → List ℕ → List (ℕ × L.Point)
  shares_of secret js = map (λ j. (j, mul L base (secret j))) js

module _ (L : PointLibrary) (laws : IsPrimeOrderGroup L) (base : L.Point) where
  pub ids-shares_of :
      (secret : ℕ → ℕ) (js : List ℕ) → map (λ s. s.0) (shares_of L base secret js) ≡ js
  ids-shares_of secret [] = refl
  ids-shares_of secret (j ∷ js) = ap (◌∷◌ j) (ids-shares_of secret js)

  module _ (ids : List ℕ) (gaps : AllApart curve_order ids) (f secret : ℕ → ℕ) where
    combine_from-shares :
        (js : List ℕ) (sub : (j : ℕ) → Elem j js → Elem j ids) (result : L.Point)
        → All (λ j. Congruent curve_order (secret j) (f j)) js
        → combine_from L ids result (shares_of L base secret js)
          ≡ ok (add L result (mul L base (interpolate curve_order order_pos ids gaps js sub f 0)))
    unfolding combine_from interpolate
    combine_from-shares [] sub result h =
        ap ok (sym (ap (add L result) (mul-zero L laws base) ∙ add-identity L laws result))
    combine_from-shares (j ∷ js) sub result h = rw c.returned (
        combine_from-shares js (λ k m. sub k (inr m)) _ h.1
        ∙ ap ok (add_assoc L laws _ _ _ ∙ ap (add L result) joined))
      where
        c : Coefficient curve_order order_pos ids gaps j
        c = coefficient curve_order order_pos ids gaps j (sub j (inl refl))

        rest : ℕ
        rest = interpolate curve_order order_pos ids gaps js (λ k m. sub k (inr m)) f 0

        same_scalar :
            Congruent curve_order
              (secret j * c.value)
              (f j * c.inverse * node_product curve_order j ids 0)
        same_scalar =
            Congruent-trans curve_order (Congruent-mul curve_order h.0 c.at_zero)
              (Congruent-of_eq curve_order _ _ (omega arith))

        joined :
            add L (mul L (mul L base (secret j)) c.value) (mul L base rest)
            ≡ mul L base (interpolate curve_order order_pos ids gaps (j ∷ js) sub f 0)
        joined =
            ap (λ P. add L P (mul L base rest))
              (mul-mul L laws base (secret j) c.value ∙ mul_congr L laws base _ _ same_scalar)
            ∙ sym (mul-add L laws base _ rest)

  -- If the secrets of keypers with distinct admissible indices lie, modulo the order, on a
  -- polynomial with at most as many coefficients as there are keypers, their shares combine to its
  -- value at 0 times the base.
  pub combine_shares-DegreeBelow :
      (ids : List ℕ) (f secret : ℕ → ℕ)
      → AreIndices ids
      → DegreeBelow curve_order (length ids) f
      → All (λ j. Congruent curve_order (secret j) (f j)) ids
      → combine_shares L (shares_of L base secret ids) ≡ ok (mul L base (f 0))
  unfolding combine_shares
  combine_shares-DegreeBelow ids f secret valid d h = rw (ids-shares_of secret ids) (
      combine_from-shares ids gaps f secret ids (λ j m. m) L.identity h
      ∙ ap ok (
          identity-add L laws _
          ∙ mul_congr L laws base _ _
              (interpolate-Congruent curve_order order_pos ids gaps f d valid.distinct 0)))
    where
      gaps : AllApart curve_order ids
      gaps = AreIndices-AllApart ids valid
