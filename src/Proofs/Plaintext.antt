-- ===== src/Proofs/Plaintext.antt =====
-- crypto/proofs.py: `point - m * P2` undoes an addition of `m * P2`.
use generalised_elgamal_voti.Shared.{ℕ, ◌+◌, ◌%◌, ◌≡◌, sym, ap, ◌∙◌, arith}
use generalised_elgamal_voti.Modular.{
  Congruent, Congruent-refl, Congruent-of_eq, Congruent-trans, Congruent-add, Congruent-sym,
  mod-Congruent,
}
use generalised_elgamal_voti.Params.{curve_order}
use generalised_elgamal_voti.Points.{PointLibrary, IsPrimeOrderGroup, mul, add}
use generalised_elgamal_voti.Points.Laws.{mul_congr, mul-add, mul-zero, add_assoc, add-identity}
use generalised_elgamal_voti.Proofs.Defs.{without_plaintext, negate}
use generalised_elgamal_voti.Proofs.Dleq.{negate-Congruent}

module _ (L : PointLibrary) (laws : IsPrimeOrderGroup L) where
  cancelled :
      (B : ℕ)
      → add L (mul L L.generator B) (mul L L.generator (negate (B % curve_order))) ≡ L.identity
  cancelled B =
      sym (mul-add L laws L.generator B (negate (B % curve_order)))
      ∙ mul_congr L laws L.generator _ 0 nothing
      ∙ mul-zero L laws L.generator
    where
      nothing : Congruent curve_order (B + negate (B % curve_order)) 0
      nothing =
          Congruent-trans curve_order
            (Congruent-add curve_order (Congruent-sym curve_order (mod-Congruent curve_order B))
              (Congruent-refl curve_order (negate (B % curve_order))))
            (Congruent-trans curve_order
              (Congruent-of_eq curve_order _ (negate (B % curve_order) + B % curve_order)
                (omega arith))
              (negate-Congruent (B % curve_order)))

  -- Taking the plaintext away leaves the rest.
  pub without_plaintext-add :
      (P : L.Point) (B : ℕ) → without_plaintext L (add L P (mul L L.generator B)) B ≡ P
  unfolding without_plaintext
  without_plaintext-add P B =
      add_assoc L laws P (mul L L.generator B) (mul L L.generator (negate (B % curve_order)))
      ∙ ap (add L P) (cancelled B)
      ∙ add-identity L laws P
