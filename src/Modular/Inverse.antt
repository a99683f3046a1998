-- ===== src/Modular/Inverse.antt =====
-- Python's built-in `pow(a, -1, q)`: the extended Euclidean algorithm, with the coefficient kept
-- modulo `q`; `none` is the ValueError of a number that is not invertible.
use native.Mathlib.Nat
use generalised_elgamal_voti.Shared.{
  ℕ, zero, suc, ◌+◌, ◌-◌, ◌*◌, ◌/◌, ◌%◌, ◌<◌, ◌∣◌, ◌≡◌, refl, ap, arith, sym, subst, Option, none,
  some, ◌==◌, if◌then◌else◌, Bool-cases, inl, inr,
}
use generalised_elgamal_voti.Modular.{
  Congruent, Congruent-trans, Congruent-sym, Congruent-of_eq, Congruent-scale, mod-Congruent,
}

unfoldable pub inverse_loop : (q fuel r₀ r₁ s₀ s₁ : ℕ) → Option ℕ
inverse_loop q zero r₀ r₁ s₀ s₁ = none
inverse_loop q (suc fuel) r₀ r₁ s₀ s₁ =
    let rest = inverse_loop q fuel r₁ (r₀ % r₁) s₁ ((s₀ + (q - 1) * (s₁ * (r₀ / r₁))) % q) in
    if r₁ == 0 then if r₀ == 1 then some s₀ else none else rest

-- `pow(a, -1, q)`.
unfoldable pub mod_inverse : ℕ → ℕ → Option ℕ
unfolding inverse_loop
mod_inverse a q = inverse_loop q (suc q) q (a % q) 0 1

seven_mod_40 : mod_inverse 7 40 ≡ some 23
unfolding mod_inverse
seven_mod_40 = refl

module _ (q : ℕ) (q_pos : 0 < q) where
  next_coefficient :
      (a r₀ r₁ s₀ s₁ : ℕ)
      → Congruent q r₀ (s₀ * a)
      → Congruent q r₁ (s₁ * a)
      → Congruent q (r₀ % r₁) ((s₀ + (q - 1) * (s₁ * (r₀ / r₁))) % q * a)
  next_coefficient a r₀ r₁ s₀ s₁ e₀ e₁ =
      Congruent-trans q raw (Congruent-sym q (Congruent-scale q a (mod-Congruent q _)))
    where
      pred_suc : q - 1 + 1 ≡ q
      pred_suc = omega arith

      raw : Congruent q (r₀ % r₁) ((s₀ + (q - 1) * (s₁ * (r₀ / r₁))) * a)
      raw = record {
        left = e₀.left + r₀ / r₁ * e₁.right + s₁ * (r₀ / r₁) * a;
        right = e₀.right + r₀ / r₁ * e₁.left;
        same = omega (
          arith,
          Nat.div-add-mod r₀ r₁,
          e₀.same,
          ap (λ (t : ℕ). r₀ / r₁ * t) e₁.same,
          ap (λ (t : ℕ). t * (s₁ * (r₀ / r₁) * a)) pred_suc,
        );
      }

  inverse_loop-Congruent :
      (a fuel r₀ r₁ s₀ s₁ : ℕ) {x : ℕ}
      → Congruent q r₀ (s₀ * a)
      → Congruent q r₁ (s₁ * a)
      → inverse_loop q fuel r₀ r₁ s₀ s₁ ≡ some x
      → Congruent q (x * a) 1
  unfolding inverse_loop
  inverse_loop-Congruent a zero r₀ r₁ s₀ s₁ e₀ e₁ h = cc
  inverse_loop-Congruent a (suc fuel) r₀ r₁ s₀ s₁ {x} e₀ e₁ h = elim (Bool-cases (r₁ == 0)) [
    | inl stop ↦ finish (ground arith)
    | inr more ↦
        inverse_loop-Congruent a fuel r₁ (r₀ % r₁) s₁ _ e₁ (next_coefficient a r₀ r₁ s₀ s₁ e₀ e₁)
          (ground arith)
  ]
    where
      finish : (r₀ ≡ 1) × (s₀ ≡ x) → Congruent q (x * a) 1
      finish (unit, e) = rw (← e, ← unit) (Congruent-sym q e₀)

  inverse_loop_total :
      (fuel r₀ r₁ s₀ s₁ : ℕ)
      → r₁ < fuel
      → ((d : ℕ) → d ∣ r₀ → d ∣ r₁ → d ≡ 1)
      → (x : ℕ) × (inverse_loop q fuel r₀ r₁ s₀ s₁ ≡ some x)
  unfolding inverse_loop
  inverse_loop_total zero r₀ r₁ s₀ s₁ h c = elim h [ ]
  inverse_loop_total (suc fuel) r₀ r₁ s₀ s₁ h c = elim (Bool-cases (r₁ == 0)) [
    | inl stop ↦ (s₀, ground (arith, last))
    | inr more ↦ rw more (
        inverse_loop_total fuel r₁ (r₀ % r₁) s₁ _ (ground arith)
          (λ d d₁ dm. c d ((Nat.dvd-mod_iff d d₁).0 dm) d₁))
  ]
    where
      last : r₁ ≡ 0 → r₀ ≡ 1
      last e = c r₀ (Nat.dvd_refl r₀) (subst (◌∣◌ r₀) (sym e) (Nat.dvd-zero r₀))

  -- The result is an inverse.
  pub mod_inverse-Congruent : (a : ℕ) {x : ℕ} → mod_inverse a q ≡ some x → Congruent q (x * a) 1
  unfolding mod_inverse
  mod_inverse-Congruent a h =
      inverse_loop-Congruent a (suc q) q (a % q) 0 1
        (record { left = 0; right = 1; same = omega arith })
        (Congruent-trans q (mod-Congruent q a) (Congruent-of_eq q a (1 * a) (omega arith))) h

  -- A number that has no factor in common with `q` has an inverse.
  pub mod_inverse_total :
      (a : ℕ) → ((d : ℕ) → d ∣ a → d ∣ q → d ≡ 1) → (x : ℕ) × (mod_inverse a q ≡ some x)
  unfolding mod_inverse
  mod_inverse_total a c =
      inverse_loop_total (suc q) q (a % q) 0 1 (omega (arith, Nat.mod-lt a q_pos))
        (λ d dq da. c d ((Nat.dvd-mod_iff d dq).0 da) dq)

  -- A number with an inverse has no factor in common with `q`.
  pub no_common_factor : (a x : ℕ) → Congruent q (x * a) 1 → (d : ℕ) → d ∣ a → d ∣ q → d ≡ 1
  no_common_factor a x e d da dq = Nat.eq-one_of_dvd-one (
      (Nat.dvd-add_iff_left d (Nat.dvd-mul_left_of_dvd d dq e.right)).1 (
        subst (◌∣◌ d) e.same
          (Nat.dvd-add d (Nat.dvd-mul_left_of_dvd d da x) (Nat.dvd-mul_left_of_dvd d dq e.left))))
