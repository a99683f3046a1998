-- ===== src/Params/Factors.antt =====
-- The curve order has no factor between 2 and 2 ^ 16, so that keyper indices, which are written as
-- two bytes, differ by numbers that are invertible modulo the order.
use native.Mathlib.Nat
use generalised_elgamal_voti.Shared.{
  ℕ, zero, suc, ◌+◌, ◌-◌, ◌*◌, ◌%◌, ◌<◌, ◌∣◌, ◌≡◌, ◌≢◌, ◌⊎◌, inl, inr, refl, ap, arith, Bool, true,
  leb, ◌==◌, not, ◌&&◌, ◌||◌,
}
use generalised_elgamal_voti.Params.Encodings.{curve_order, curve_order_big}
use generalised_elgamal_voti.Modular.{Congruent}
use generalised_elgamal_voti.Modular.Inverse.{mod_inverse_total, mod_inverse-Congruent}
use generalised_elgamal_voti.Modular.Interpolation.{Apart}

-- No number `d` with `2 ≤ d < bound` divides the curve order.
no_factor_below : (bound : ℕ) → Bool
no_factor_below zero = true
no_factor_below (suc d) = (leb d 1 || not (curve_order % d == 0)) && no_factor_below d

no_small_factor : no_factor_below 65536 ≡ true
unfolding no_factor_below curve_order
no_small_factor = refl

not-factor : (bound d : ℕ) → no_factor_below bound ≡ true → d < bound → 1 < d → curve_order % d ≢ 0
unfolding no_factor_below
not-factor zero d checked small big = absurd (omega arith)
not-factor (suc b) d checked small big = ground (arith, not-factor b d)

-- A positive number below 2 ^ 16 has no factor in common with the curve order.
pub small-coprime : (a : ℕ) → 0 < a → a < 65536 → (d : ℕ) → d ∣ a → d ∣ curve_order → d ≡ 1
small-coprime a pos lt d da dq = ground (
  arith,
  not-factor 65536 d no_small_factor (omega (arith, Nat.le_of_dvd pos da)),
  Nat.mod-eq-zero_of_dvd d dq,
  Nat.pos_of_dvd_of_pos da pos,
)

Apart-above : (x y : ℕ) → y < x → x < 65536 → Apart curve_order x y
Apart-above x y lt bound =
    let (i, e) =
      mod_inverse_total curve_order order_pos (x - y)
        (small-coprime (x - y) (omega arith) (omega arith)) in
    let c : Congruent curve_order (i * (x - y)) 1 =
      mod_inverse-Congruent curve_order order_pos (x - y) e in
    record {
      inverse = i;
      law = record {
        left = c.left;
        right = c.right;
        same = omega (arith, c.same, ap (λ (t : ℕ). i * t) (split x y lt));
      };
    }
  where
    order_pos : 0 < curve_order
    order_pos = omega (arith, curve_order_big)

    split : (a b : ℕ) → b < a → a - b + b ≡ a
    split a b h = omega arith

Apart-flip : (q x y : ℕ) → 0 < q → Apart q x y → Apart q y x
Apart-flip q x y h a = record {
  inverse = (q - 1) * a.inverse;
  law = record {
    left = a.inverse * x + a.law.left;
    right = a.inverse * y + a.law.right;
    same = omega (
      arith,
      a.law.same,
      ap (λ (t : ℕ). t * (a.inverse * x)) pred_suc,
      ap (λ (t : ℕ). t * (a.inverse * y)) pred_suc,
    );
  };
}
  where
    pred_suc : q - 1 + 1 ≡ q
    pred_suc = omega arith

-- Two different keyper indices differ by a number that is invertible modulo the curve order.
pub indices-Apart : (x y : ℕ) → x ≢ y → x < 65536 → y < 65536 → Apart curve_order x y
indices-Apart x y ne hx hy = elim order [
  | inl below ↦
      Apart-flip curve_order y x (omega (arith, curve_order_big)) (Apart-above y x below hy)
  | inr above ↦ Apart-above x y above hx
]
  where
    order : (x < y) ⊎ (y < x)
    order = grind arith
