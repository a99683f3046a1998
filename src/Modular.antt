-- ===== src/Modular.antt =====
-- Arithmetic modulo `q`: congruence of native numbers, with the two multiples of `q` as data, so
-- that a consequence of congruences is one linear equation.
pub mod Signed
pub mod Inverse
pub mod Interpolation
use native.Mathlib.Nat.{div-add-mod, add-mul-mod_self_right}
use generalised_elgamal_voti.Shared.{
  ℕ, zero, suc, ◌+◌, ◌-◌, ◌*◌, ◌/◌, ◌%◌, ◌≤◌, ◌<◌, ◌≡◌, refl, ap, arith, sym, ◌∙◌,
}

module _ (q : ℕ) where
  pub record Congruent (a b : ℕ) : Type 0 where
    pub left : ℕ
    pub right : ℕ
    pub same : a + left * q ≡ b + right * q

  pub Congruent-refl : (a : ℕ) → Congruent a a
  Congruent-refl a = record { left = 0; right = 0; same = refl }

  pub Congruent-of_eq : (a b : ℕ) → a ≡ b → Congruent a b
  Congruent-of_eq a b e = record { left = 0; right = 0; same = ap (λ (t : ℕ). t + 0 * q) e }

  pub Congruent-sym : {a b : ℕ} → Congruent a b → Congruent b a
  Congruent-sym c = record { left = c.right; right = c.left; same = sym c.same }

  pub Congruent-trans : {a b c : ℕ} → Congruent a b → Congruent b c → Congruent a c
  Congruent-trans f g = record {
    left = f.left + g.left;
    right = f.right + g.right;
    same = omega (arith, f.same, g.same);
  }

  pub Congruent-add : {a b c d : ℕ} → Congruent a b → Congruent c d → Congruent (a + c) (b + d)
  Congruent-add f g = record {
    left = f.left + g.left;
    right = f.right + g.right;
    same = omega (arith, f.same, g.same);
  }

  pub Congruent-scale : {a b : ℕ} (c : ℕ) → Congruent a b → Congruent (a * c) (b * c)
  Congruent-scale c f = record {
    left = f.left * c;
    right = f.right * c;
    same = omega (arith, ap (λ (t : ℕ). t * c) f.same);
  }

  pub Congruent-mul : {a b c d : ℕ} → Congruent a b → Congruent c d → Congruent (a * c) (b * d)
  Congruent-mul {a} {b} {c} {d} f g = Congruent-trans (Congruent-scale c f) (
      Congruent-trans (Congruent-of_eq (b * c) (c * b) (omega arith))
        (Congruent-trans (Congruent-scale b g) (Congruent-of_eq (d * b) (b * d) (omega arith))))

  -- What is added on both sides cancels.
  pub Congruent-cancel : {a b c d : ℕ} → Congruent c d → Congruent (a + c) (b + d) → Congruent a b
  Congruent-cancel f g = record {
    left = f.right + g.left;
    right = f.left + g.right;
    same = omega (arith, f.same, g.same);
  }

  pub mod-Congruent : (a : ℕ) → Congruent (a % q) a
  mod-Congruent a = record { left = a / q; right = 0; same = omega (arith, div-add-mod a q) }

  -- Congruent numbers leave the same remainder.
  pub mod_eq : {a b : ℕ} → Congruent a b → a % q ≡ b % q
  mod_eq {a} {b} c =
      sym (add-mul-mod_self_right a c.left q)
      ∙ ap (λ (t : ℕ). t % q) c.same
      ∙ add-mul-mod_self_right b c.right q

  pub mod_eq_iff : {a b : ℕ} → a % q ≡ b % q → Congruent a b
  mod_eq_iff {a} {b} e =
      Congruent-trans (Congruent-sym (mod-Congruent a))
        (Congruent-trans (Congruent-of_eq (a % q) (b % q) e) (mod-Congruent b))
