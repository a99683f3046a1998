-- ===== src/Points/Laws.antt =====
-- How the wrappers of crypto/points.py act: scalars count modulo the curve order.
use native.Mathlib.Nat.{mod-eq_of_lt}
use generalised_elgamal_voti.Shared.{
  ℕ, ◌+◌, ◌*◌, ◌<◌, ◌≡◌, sym, ap, arith, ◌∙◌, true, is_yes→holds, holds→is_yes,
}
use generalised_elgamal_voti.Modular.{
  Congruent, mod_eq, mod_eq_iff, mod-Congruent, Congruent-add, Congruent-mul, Congruent-sym,
}
use generalised_elgamal_voti.Params.{curve_order, curve_order_big, mod_order-lt}
use generalised_elgamal_voti.Points.Library.{PointLibrary, IsPrimeOrderGroup}
use generalised_elgamal_voti.Points.Arithmetic.{mul, add, neg, eq}

module _ (L : PointLibrary) (laws : IsPrimeOrderGroup L) where
  -- Congruent scalars act alike.
  pub mul_congr : (P : L.Point) (a b : ℕ) → Congruent curve_order a b → mul L P a ≡ mul L P b
  unfolding mul
  mul_congr P a b c = ap (L.times P) (mod_eq curve_order c)

  pub add_comm : (P Q : L.Point) → add L P Q ≡ add L Q P
  unfolding add
  add_comm = laws.plus_comm

  pub add_assoc : (P Q R : L.Point) → add L (add L P Q) R ≡ add L P (add L Q R)
  unfolding add
  add_assoc = laws.plus_assoc

  pub add-identity : (P : L.Point) → add L P L.identity ≡ P
  unfolding add
  add-identity = laws.plus_identity

  pub identity-add : (P : L.Point) → add L L.identity P ≡ P
  identity-add P = add_comm L.identity P ∙ add-identity P

  pub add-neg : (P : L.Point) → add L P (neg L P) ≡ L.identity
  unfolding add neg
  add-neg = laws.plus_negative

  pub add_interchange :
      (P Q R S : L.Point) → add L (add L P Q) (add L R S) ≡ add L (add L P R) (add L Q S)
  add_interchange P Q R S =
      rw (add_assoc P Q, ← add_assoc Q R S, add_comm Q R, add_assoc R Q S, ← add_assoc P R)

  -- `P + Q - Q`.
  pub add-neg_cancel : (P Q : L.Point) → add L (add L P Q) (neg L Q) ≡ P
  add-neg_cancel P Q = rw (add_assoc, add-neg Q, add-identity)

  pub add_cancel : (P Q R : L.Point) → add L P R ≡ add L Q R → P ≡ Q
  add_cancel P Q R e = sym (add-neg_cancel P R) ∙ ap (λ S. add L S (neg L R)) e ∙ add-neg_cancel Q R

  -- `mul` distributes over the sum of scalars.
  pub mul-add : (P : L.Point) (a b : ℕ) → mul L P (a + b) ≡ add L (mul L P a) (mul L P b)
  unfolding mul add
  mul-add P a b =
      ap (L.times P) (
        mod_eq curve_order (
          Congruent-add curve_order (Congruent-sym curve_order (mod-Congruent curve_order a))
            (Congruent-sym curve_order (mod-Congruent curve_order b))))
      ∙ laws.times_plus P _ _ (mod_order-lt a) (mod_order-lt b)

  -- Multiplying twice multiplies the scalars.
  pub mul-mul : (P : L.Point) (a b : ℕ) → mul L (mul L P a) b ≡ mul L P (a * b)
  unfolding mul
  mul-mul P a b = sym (
      ap (L.times P) (
        mod_eq curve_order (
          Congruent-mul curve_order (Congruent-sym curve_order (mod-Congruent curve_order a))
            (Congruent-sym curve_order (mod-Congruent curve_order b))))
      ∙ laws.times_times P _ _ (mod_order-lt a) (mod_order-lt b))

  pub add-mul : (P Q : L.Point) (a : ℕ) → mul L (add L P Q) a ≡ add L (mul L P a) (mul L Q a)
  unfolding mul add
  add-mul P Q a = laws.plus_times P Q _ (mod_order-lt a)

  pub mul-one : (P : L.Point) → mul L P 1 ≡ P
  unfolding mul
  mul-one P = ap (L.times P) (mod-eq_of_lt (omega (arith, curve_order_big))) ∙ laws.times_one P

  pub mul-zero : (P : L.Point) → mul L P 0 ≡ L.identity
  mul-zero P =
      add_cancel (mul L P 0) L.identity (mul L P 0) (sym (mul-add P 0 0) ∙ sym (identity-add _))

  pub identity-mul : (a : ℕ) → mul L L.identity a ≡ L.identity
  identity-mul a =
      ap (λ P. mul L P a) (sym (mul-zero L.identity))
      ∙ mul-mul L.identity 0 a
      ∙ ap (mul L L.identity) (omega arith)
      ∙ mul-zero L.identity

  -- Every point is a multiple of the generator, by a scalar that is unique modulo the order.
  pub mul_generates : (P : L.Point) → (n : ℕ) × (P ≡ mul L L.generator n) × (n < curve_order)
  unfolding mul
  mul_generates P =
      let (n, e, lt) = laws.generates P in
      (n, e ∙ ap (L.times L.generator) (sym (mod-eq_of_lt lt)), lt)

  pub mul_injective :
      (a b : ℕ) → mul L L.generator a ≡ mul L L.generator b → Congruent curve_order a b
  unfolding mul
  mul_injective a b e =
      mod_eq_iff curve_order (laws.generator_injective _ _ (mod_order-lt a) (mod_order-lt b) e)

  pub eq→≡ : (P Q : L.Point) → eq L P Q ≡ true → P ≡ Q
  unfolding eq
  eq→≡ P Q h = is_yes→holds (L.equal P Q) h

  pub ≡→eq : (P Q : L.Point) → P ≡ Q → eq L P Q ≡ true
  unfolding eq
  ≡→eq P Q h = holds→is_yes (L.equal P Q) h
