-- ===== src/Points/Scalars.antt =====
-- A group library that meets the laws: the scalars under addition. It shows that the laws that the
-- development takes of py_arkworks_bls12381 can hold together, and runs in the examples.
use mathlib.Core.HLevel.{Σ_prop_path}
use native.Mathlib.Bridge.{le_prop}
use native.Mathlib.Nat.{mod-eq_of_lt}
use native.Mathlib.Decide.{ℕ_discrete, dec_lt}
use generalised_elgamal_voti.Shared.{
  ℕ, ◌+◌, ◌-◌, ◌*◌, ◌%◌, ◌^◌, ◌<◌, ◌≡◌, refl, sym, ap, ◌∙◌, arith, true, Option, none, some,
}
use generalised_elgamal_voti.Shared.Bytes.{
  Bytes, big_endian, from_bytes, length-big_endian, from_bytes-big_endian,
}
use generalised_elgamal_voti.Modular.{
  Congruent, mod_eq, mod-Congruent, Congruent-refl, Congruent-sym, Congruent-trans, Congruent-of_eq,
  Congruent-add, Congruent-mul, Congruent-scale,
}
use generalised_elgamal_voti.Params.{curve_order, curve_order_big, mod_order-lt}
use generalised_elgamal_voti.Points.Library.{PointLibrary, IsPrimeOrderGroup, HasCodec}

abbrev pub Scalar : Type 0
Scalar = (n : ℕ) × (n < curve_order)

abbrev pub reduce : ℕ → Scalar
reduce n = (n % curve_order, mod_order-lt n)

pub scalar_path : (P Q : Scalar) → P.0 ≡ Q.0 → P ≡ Q
scalar_path P Q e = Σ_prop_path (λ n. le_prop) e

abbrev scalar_equal : Discrete Scalar
scalar_equal P Q = elim (ℕ_discrete P.0 Q.0) [
  | yes e ↦ yes (scalar_path P Q e)
  | no ne ↦ no (λ p. ne (ap (λ R. R.0) p))
]

abbrev decode : Bytes → Option Scalar
decode b = elim (dec_lt (from_bytes b) curve_order) [ yes h ↦ some (from_bytes b, h) | no h ↦ none ]

-- `size` is the number of bytes of an encoded point.
abbrev pub scalar_library : ℕ → PointLibrary
scalar_library size = record {
  Point = Scalar;
  generator = reduce 1;
  identity = reduce 0;
  plus = λ P Q. reduce (P.0 + Q.0);
  negative = λ P. reduce (curve_order - P.0);
  times = λ P k. reduce (P.0 * k);
  equal = scalar_equal;
  to_compressed_bytes = λ P. big_endian size P.0;
  from_compressed_bytes = decode;
  is_in_subgroup = λ P. true;
}

reduce_congr : (a b : ℕ) → Congruent curve_order a b → reduce a ≡ reduce b
reduce_congr a b c = scalar_path (reduce a) (reduce b) (mod_eq curve_order c)

reduce_self : (P : Scalar) (a : ℕ) → a ≡ P.0 → reduce a ≡ P
reduce_self P a e = scalar_path (reduce a) P (ap (λ (n : ℕ). n % curve_order) e ∙ mod-eq_of_lt P.1)

module _ (size : ℕ) where
  abbrev S : PointLibrary
  S = scalar_library size

  q_congr : (a b : ℕ) → Congruent curve_order (a % curve_order + b % curve_order) (a + b)
  q_congr a b =
      Congruent-add curve_order (mod-Congruent curve_order a) (mod-Congruent curve_order b)

  mod_product : (P a : ℕ) → Congruent curve_order (P * (a % curve_order)) (P * a)
  mod_product P a =
      Congruent-mul curve_order (Congruent-refl curve_order P) (mod-Congruent curve_order a)

  pub scalar_laws : IsPrimeOrderGroup S
  scalar_laws = record {
    plus_comm =
        λ P Q. reduce_congr (P.0 + Q.0) (Q.0 + P.0) (Congruent-of_eq curve_order _ _ (omega arith));
    plus_assoc = λ P Q R. reduce_congr _ _ (
        Congruent-trans curve_order
          (Congruent-add curve_order (mod-Congruent curve_order (P.0 + Q.0))
            (Congruent-refl curve_order R.0))
          (Congruent-trans curve_order
            (Congruent-of_eq curve_order _ (P.0 + (Q.0 + R.0)) (omega arith))
            (Congruent-sym curve_order (
              Congruent-add curve_order (Congruent-refl curve_order P.0)
                (mod-Congruent curve_order (Q.0 + R.0))))));
    plus_identity = λ P. reduce_self P _ (zero_right P.0);
    plus_negative = λ P. reduce_congr _ 0 (
        Congruent-trans curve_order
          (Congruent-add curve_order (Congruent-refl curve_order P.0)
            (mod-Congruent curve_order (curve_order - P.0)))
          (record { left = 0; right = 1; same = opposite P.0 P.1 }));
    times_one = λ P. reduce_self P (P.0 * 1) (omega arith);
    times_plus = λ P a b ha hb. reduce_congr _ _ (
        Congruent-trans curve_order (mod_product P.0 (a + b)) (
          Congruent-trans curve_order
            (Congruent-of_eq curve_order _ (P.0 * a + P.0 * b) (omega arith))
            (Congruent-sym curve_order (q_congr (P.0 * a) (P.0 * b)))));
    times_times = λ P a b ha hb. reduce_congr _ _ (
        Congruent-trans curve_order (mod_product P.0 (a * b)) (
          Congruent-trans curve_order (Congruent-of_eq curve_order _ (P.0 * a * b) (omega arith)) (
            Congruent-sym curve_order
              (Congruent-scale curve_order b (mod-Congruent curve_order (P.0 * a))))));
    plus_times = λ P Q a ha. reduce_congr _ _ (
        Congruent-trans curve_order
          (Congruent-scale curve_order a (mod-Congruent curve_order (P.0 + Q.0)))
          (Congruent-trans curve_order
            (Congruent-of_eq curve_order _ (P.0 * a + Q.0 * a) (omega arith))
            (Congruent-sym curve_order (q_congr (P.0 * a) (Q.0 * a)))));
    generates = λ P. (P.0, sym (reduce_self P _ (one_left P.0)), P.1);
    generator_injective =
        λ a b ha hb e. sym (mod_one_left a ha) ∙ ap (λ R. R.0) e ∙ mod_one_left b hb;
  }
    where
      zero_right : (n : ℕ) → n + 0 % curve_order ≡ n
      zero_right n =
          rw (mod-eq_of_lt {n = 0} {m = curve_order} (omega (arith, curve_order_big))) (omega arith)

      one_left : (n : ℕ) → 1 % curve_order * n ≡ n
      one_left n =
          rw (mod-eq_of_lt {n = 1} {m = curve_order} (omega (arith, curve_order_big))) (omega arith)

      mod_one_left : (n : ℕ) → n < curve_order → (1 % curve_order * n) % curve_order ≡ n
      mod_one_left n h = ap (λ (k : ℕ). k % curve_order) (one_left n) ∙ mod-eq_of_lt h

      opposite :
          (n : ℕ) → n < curve_order → n + (curve_order - n) + 0 * curve_order ≡ 0 + 1 * curve_order
      opposite n h = omega arith

-- An encoding of at least 32 bytes holds every scalar.
pub scalar_codec : (size : ℕ) → curve_order < 256 ^ size → HasCodec (scalar_library size) size
scalar_codec size h = record {
  encoded_length = λ P. length-big_endian size P.0;
  decode_encode = λ P.
      decoded P (from_bytes (big_endian size P.0))
        (from_bytes-big_endian size P.0 (omega (arith, P.1)));
  in_subgroup = λ P. refl;
}
  where
    decoded :
        (P : Scalar) (v : ℕ)
        → v ≡ P.0
        → elim (dec_lt v curve_order) [ yes h ↦ some (v, h) | no h ↦ none ] ≡ some P
    decoded P v e = go (dec_lt v curve_order)
      where
        go : (d : Dec (v < curve_order)) → elim d [ yes h ↦ some (v, h) | no h ↦ none ] ≡ some P
        go (yes h) = ap some (scalar_path (v, h) P e)
        go (no n) = absurd (n (rw e P.1))
