-- ===== src/Proofs/Dleq.antt =====
-- crypto/proofs.py: honest proofs of equal discrete logarithms are made and verify.
use native.Mathlib.Nat.{div-add-mod}
use generalised_elgamal_voti.Shared.{
  ℕ, ◌+◌, ◌-◌, ◌*◌, ◌%◌, ◌/◌, ◌<◌, ◌≡◌, refl, sym, ap, ◌∙◌, arith, true, ok, ==_iff,
}
use generalised_elgamal_voti.Shared.Bytes.{Bytes, encode as text}
use generalised_elgamal_voti.Modular.{
  Congruent, Congruent-refl, Congruent-of_eq, Congruent-trans, Congruent-add, Congruent-scale,
  mod-Congruent,
}
use generalised_elgamal_voti.Params.{curve_order, mod_order-lt}
use generalised_elgamal_voti.Points.{PointLibrary, IsPrimeOrderGroup, HasCodec, mul, add}
use generalised_elgamal_voti.Points.Laws.{mul_congr, mul-add, mul-mul}
use generalised_elgamal_voti.Transcript.{Transcript}
use generalised_elgamal_voti.Transcript.Totality.{append_point-ok, challenge-reduced}
use generalised_elgamal_voti.Proofs.Defs.{
  negate, bind_statement_dleq, dleq_challenge, prove_dleq, verify_dleq,
}

-- `negate e` and `e` add up to a multiple of the order.
pub negate-Congruent : (e : ℕ) → Congruent curve_order (negate e + e) 0
unfolding negate
negate-Congruent e =
    Congruent-trans curve_order
      (Congruent-add curve_order (mod-Congruent curve_order (curve_order - e % curve_order))
        (Congruent-refl curve_order e))
      (record {
        left = 0;
        right = 1 + e / curve_order;
        same = omega (arith, mod_order-lt e, div-add-mod e curve_order);
      })

-- The exponent that the verifier recomputes.
response-Congruent :
    (w x e : ℕ) → Congruent curve_order ((w + x * e) % curve_order + x * negate e) w
response-Congruent w x e =
    Congruent-trans curve_order
      (Congruent-add curve_order (mod-Congruent curve_order (w + x * e))
        (Congruent-refl curve_order (x * negate e)))
      (Congruent-trans curve_order
        (Congruent-of_eq curve_order _ (w + (negate e + e) * x) (omega arith))
        (Congruent-trans curve_order
          (Congruent-add curve_order (Congruent-refl curve_order w)
            (Congruent-scale curve_order x (negate-Congruent e)))
          (Congruent-of_eq curve_order _ w (omega arith))))

module _ (keccak : Bytes → Bytes) (L : PointLibrary) (laws : IsPrimeOrderGroup L)
    (codec : HasCodec L 96) where
  commitment :
      (base : L.Point) (w x e : ℕ)
      → add L (mul L base ((w + x * e) % curve_order)) (mul L (mul L base x) (negate e))
        ≡ mul L base w
  commitment base w x e =
      ap (add L (mul L base ((w + x * e) % curve_order))) (mul-mul L laws base x (negate e))
      ∙ sym (mul-add L laws base ((w + x * e) % curve_order) (x * negate e))
      ∙ mul_congr L laws base _ w (response-Congruent w x e)

  dleq_challenge-reduced :
      (t : Transcript) (base1 point1 base2 point2 a1 a2 : L.Point)
      → (e : ℕ) × (u : Transcript) × (dleq_challenge keccak L t base1 point1 base2 point2 a1 a2
          ≡ ok (e, u))
        × (e < curve_order)
  unfolding dleq_challenge bind_statement_dleq
  dleq_challenge-reduced t base1 point1 base2 point2 a1 a2 =
      let (t1, q1) = append_point-ok L codec t (text "dleq:base1") base1 (omega arith) in
      let (t2, q2) = append_point-ok L codec t1 (text "dleq:base2") base2 (omega arith) in
      let (t3, q3) = append_point-ok L codec t2 (text "dleq:point1") point1 (omega arith) in
      let (t4, q4) = append_point-ok L codec t3 (text "dleq:point2") point2 (omega arith) in
      let (t5, q5) = append_point-ok L codec t4 (text "dleq:a1") a1 (omega arith) in
      let (t6, q6) = append_point-ok L codec t5 (text "dleq:a2") a2 (omega arith) in
      let (e, u, q, below) = challenge-reduced keccak t6 (text "dleq:e") (omega arith) in
      (e, u, rw (q1, q2, q3, q4, q5, q6, q), below)

  -- An honest proof is made and verifies, and its scalars are reduced.
  pub prove_dleq-verify_reduced :
      (base1 base2 : L.Point) (x : ℕ) (t : Transcript) (w : ℕ)
      → (e : ℕ) × (z : ℕ) × (prove_dleq keccak L base1 (mul L base1 x) base2 (mul L base2 x) x t w
          ≡ ok (e, z))
        × (verify_dleq keccak L base1 (mul L base1 x) base2 (mul L base2 x) e z t ≡ ok true)
        × (e < curve_order)
        × (z < curve_order)
  unfolding prove_dleq verify_dleq
  prove_dleq-verify_reduced base1 base2 x t w =
      let (e, u, q, below) =
        dleq_challenge-reduced t base1 (mul L base1 x) base2 (mul L base2 x) (mul L base1 w)
          (mul L base2 w) in
      (
        e,
        (w + x * e) % curve_order,
        rw q,
        rw (commitment base1 w x e, commitment base2 w x e, q, (==_iff e e).1 refl),
        below,
        mod_order-lt (w + x * e),
      )

  -- For points that are x times their bases, a proof of equal discrete logarithms is made without
  -- an error and verifies on the same transcript.
  pub prove_dleq-verify_dleq :
      (base1 base2 : L.Point) (x : ℕ) (t : Transcript) (w : ℕ)
      → (e : ℕ) × (z : ℕ) × (prove_dleq keccak L base1 (mul L base1 x) base2 (mul L base2 x) x t w
          ≡ ok (e, z))
        × (verify_dleq keccak L base1 (mul L base1 x) base2 (mul L base2 x) e z t ≡ ok true)
  prove_dleq-verify_dleq base1 base2 x t w =
      let (e, z, proved, verified, _, _) = prove_dleq-verify_reduced base1 base2 x t w in
      (e, z, proved, verified)
