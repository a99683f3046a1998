-- ===== src/Proofs/Budget.antt =====
-- crypto/proofs.py: the proof that a sum of ciphertexts encrypts exactly the budget.
use generalised_elgamal_voti.Shared.{ℕ, ◌%◌, ◌<◌, ◌≡◌, ap, ◌∙◌, arith, true, ok, [], ◌∷◌}
use generalised_elgamal_voti.Shared.Bytes.{Bytes, encode as text}
use generalised_elgamal_voti.Params.{curve_order}
use generalised_elgamal_voti.Points.{PointLibrary, IsPrimeOrderGroup, HasCodec, mul}
use generalised_elgamal_voti.Elgamal.{Ciphertext}
use generalised_elgamal_voti.Elgamal.Homomorphism.{Encrypts}
use generalised_elgamal_voti.Transcript.{Transcript}
use generalised_elgamal_voti.Transcript.Totality.{append-ok, append_scalar-ok}
use generalised_elgamal_voti.Proofs.Defs.{
  bind_budget_exact, without_plaintext, prove_budget_exact, verify_budget_exact,
}
use generalised_elgamal_voti.Proofs.Dleq.{prove_dleq-verify_reduced}
use generalised_elgamal_voti.Proofs.Plaintext.{without_plaintext-add}

module _ (keccak : Bytes → Bytes) (L : PointLibrary) (laws : IsPrimeOrderGroup L)
    (codec : HasCodec L 96) where
  bind_budget_exact-ok :
      (t : Transcript) (B : ℕ) → (u : Transcript) × (bind_budget_exact keccak L t B ≡ ok u)
  unfolding bind_budget_exact
  bind_budget_exact-ok t B =
      let (t1, q1) = append-ok t (text "budget:mode") (0 ∷ []) (omega arith) (omega arith) in
      let (t2, q2) = append_scalar-ok t1 (text "budget:B") (B % curve_order) (omega arith) in
      (t2, rw (q1, q2))

  -- An honest budget proof is made and verifies, and its scalars are reduced.
  pub prove_budget_exact-verify_reduced :
      (mpk : L.Point) (B : ℕ) (sum : Ciphertext L) (h : Encrypts L mpk B sum) (t : Transcript)
      (w : ℕ)
      → (e : ℕ) × (z : ℕ) × (prove_budget_exact keccak L sum.0 sum.1 mpk B h.randomness t w
          ≡ ok (e, z))
        × (verify_budget_exact keccak L sum.0 sum.1 mpk B e z t ≡ ok true)
        × (e < curve_order)
        × (z < curve_order)
  unfolding prove_budget_exact verify_budget_exact
  prove_budget_exact-verify_reduced mpk B sum h t w =
      let (u, bound) = bind_budget_exact-ok t B in
      let (e, z, proved, verified, e_small, z_small) =
        prove_dleq-verify_reduced keccak L laws codec L.generator mpk h.randomness u w in
      let point =
        ap (λ P. without_plaintext L P B) h.second
        ∙ without_plaintext-add L laws (mul L mpk h.randomness) B in
      (
        e,
        z,
        rw (bound, point, h.first, proved),
        rw (bound, point, h.first, verified),
        e_small,
        z_small,
      )

  -- For a sum that encrypts exactly the budget, a proof with its randomness is made without an
  -- error and verifies on the same transcript.
  pub prove_budget_exact-verify_budget_exact :
      (mpk : L.Point) (B : ℕ) (sum : Ciphertext L) (h : Encrypts L mpk B sum) (t : Transcript)
      (w : ℕ)
      → (e : ℕ) × (z : ℕ) × (prove_budget_exact keccak L sum.0 sum.1 mpk B h.randomness t w
          ≡ ok (e, z))
        × (verify_budget_exact keccak L sum.0 sum.1 mpk B e z t ≡ ok true)
  prove_budget_exact-verify_budget_exact mpk B sum h t w =
      let (e, z, proved, verified, _, _) = prove_budget_exact-verify_reduced mpk B sum h t w in
      (e, z, proved, verified)
