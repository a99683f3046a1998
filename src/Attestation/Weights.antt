-- ===== src/Attestation/Weights.antt =====
-- crypto/attestation.py: the transcript holds the weight and the re-vote counter modulo the curve
-- order, while the credential carries them unreduced.
use native.Mathlib.Nat.{add-mul-mod_self_right}
use generalised_elgamal_voti.Shared.{ℕ, ◌+◌, ◌*◌, ◌≤◌, ◌≡◌, arith}
use generalised_elgamal_voti.Shared.Bytes.{Bytes}
use generalised_elgamal_voti.Params.{curve_order, scalar_to_bytes}
use generalised_elgamal_voti.Points.{PointLibrary}
use generalised_elgamal_voti.Transcript.{append_scalar}
use generalised_elgamal_voti.Attestation.Defs.{
  Attestation, at_least_one, attestation_transcript, attestation_message, checked_signature,
  verify_attestation_sig, verify_attestation,
}

scalar_to_bytes_wraps : (n k : ℕ) → scalar_to_bytes (n + k * curve_order) ≡ scalar_to_bytes n
unfolding scalar_to_bytes
scalar_to_bytes_wraps n k = rw (add-mul-mod_self_right n k curve_order)

attestation_transcript_wraps :
    (election_id pseudonym vk : Bytes) (weight nonce j k : ℕ)
    → 1 ≤ weight
    → 1 ≤ nonce
    → attestation_transcript election_id pseudonym vk
        (weight + j * curve_order)
        (nonce + k * curve_order)
      ≡ attestation_transcript election_id pseudonym vk weight nonce
unfolding attestation_transcript append_scalar
attestation_transcript_wraps election_id pseudonym vk weight nonce j k w n = rw (
  at_least_one weight w,
  at_least_one nonce n,
  at_least_one (weight + j * curve_order) (omega arith),
  at_least_one (nonce + k * curve_order) (omega arith),
  scalar_to_bytes_wraps weight j,
  scalar_to_bytes_wraps nonce k,
)

module _ (keccak : Bytes → Bytes) (L : PointLibrary) where
  attestation_message_wraps :
      (election_id pseudonym vk : Bytes) (weight nonce j k : ℕ)
      → 1 ≤ weight
      → 1 ≤ nonce
      → attestation_message keccak L election_id pseudonym vk
          (weight + j * curve_order)
          (nonce + k * curve_order)
        ≡ attestation_message keccak L election_id pseudonym vk weight nonce
  unfolding attestation_message
  attestation_message_wraps election_id pseudonym vk weight nonce j k w n =
      rw (attestation_transcript_wraps election_id pseudonym vk weight nonce j k w n)

  -- A credential of weight and counter at least 1, and the same one with multiples of the curve
  -- order added to both, are both accepted or both rejected.
  pub verify_attestation_wraps :
      (eligibility_key : Bytes) (a : Attestation) (election_id : Bytes) (j k : ℕ)
      → 1 ≤ a.weight
      → 1 ≤ a.nonce
      → verify_attestation keccak L eligibility_key
          (record a { weight = a.weight + j * curve_order; nonce = a.nonce + k * curve_order })
          election_id
        ≡ verify_attestation keccak L eligibility_key a election_id
  unfolding verify_attestation verify_attestation_sig checked_signature
  verify_attestation_wraps eligibility_key a election_id j k w n = rw (
    at_least_one a.weight w,
    at_least_one a.nonce n,
    at_least_one (a.weight + j * curve_order) (omega arith),
    at_least_one (a.nonce + k * curve_order) (omega arith),
    attestation_message_wraps a.election_id a.pseudonym a.vk a.weight a.nonce j k w n,
  )
