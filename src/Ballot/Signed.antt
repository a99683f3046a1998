-- ===== src/Ballot/Signed.antt =====
-- crypto/ballot.py: the check of a voter's signature, on a message and on one that cannot be written.
use generalised_elgamal_voti.Shared.{
  ℕ, ◌%◌, ◌≡◌, ◌≢◌, sym, ap, ◌∙◌, arith, false, List, ◌++◌, ◌==◌, ok, err, overflow_error, err,
  overflow_error,
}
use generalised_elgamal_voti.Shared.Bytes.{Bytes}
use generalised_elgamal_voti.Modular.{mod-Congruent}
use generalised_elgamal_voti.Params.{curve_order, scalar_to_bytes}
use generalised_elgamal_voti.Points.{PointLibrary, IsPrimeOrderGroup, HasCodec, mul}
use generalised_elgamal_voti.Points.Laws.{mul_congr, mul-zero}
use generalised_elgamal_voti.Schnorr.{keygen}
use generalised_elgamal_voti.Schnorr.Correctness.{
  response, response_reduced, verify-response, decode-wire,
}
use generalised_elgamal_voti.Attestation.{Attestation}
use generalised_elgamal_voti.Ballot.Defs.{verified, verify_voter_signature, or_malformed}
use generalised_elgamal_voti.Ballot.Messages.{canonical_ballot_message}

module _ (keccak : Bytes → Bytes) (G1 : PointLibrary) (laws : IsPrimeOrderGroup G1)
    (codec : HasCodec G1 48) where
  -- A key that is not the identity passes the check of `build_ballot`.
  pub keygen-ok :
      (sk : ℕ)
      → mul G1 G1.generator sk ≢ G1.identity
      → keygen keccak G1 sk ≡ ok (sk % curve_order, mul G1 G1.generator sk)
  unfolding keygen
  keygen-ok sk key =
      let same : mul G1 G1.generator (sk % curve_order) ≡ mul G1 G1.generator sk =
        mul_congr G1 laws G1.generator _ sk (mod-Congruent curve_order sk) in
      let nonzero : sk % curve_order ≢ 0 =
        λ z. key (sym same ∙ ap (mul G1 G1.generator) z ∙ mul-zero G1 laws G1.generator) in
      let test : (sk % curve_order == 0) ≡ false = ground arith in rw (test, same)

  -- The bytes of the voter's signature.
  unfoldable pub signature_bytes : (sk : ℕ) (msg : Bytes) (k : ℕ) → Bytes
  signature_bytes sk msg k =
      G1.to_compressed_bytes (mul G1 G1.generator (k % curve_order))
      ++ scalar_to_bytes (response keccak G1 sk (mul G1 G1.generator sk) msg k)

  pub verify_voter_signature-signed :
      (G2 : PointLibrary) (election_id pseudonym : Bytes) (sk : ℕ) (cts : List (Bytes × Bytes))
      (zk_proof : Bytes) (att : Attestation) (m : Bytes) (k : ℕ)
      → mul G1 G1.generator sk ≢ G1.identity
      → canonical_ballot_message election_id pseudonym cts zk_proof att ≡ ok m
      → verify_voter_signature keccak G1 G2 election_id pseudonym
          (mul G1 G1.generator sk)
          cts
          zk_proof
          (signature_bytes sk (keccak m) k)
          att
        ≡ ok verified
  unfolding verify_voter_signature or_malformed signature_bytes
  verify_voter_signature-signed G2 election_id pseudonym sk cts zk_proof att m k key message = rw (
    decode-wire keccak G1 laws codec (mul G1 G1.generator (k % curve_order))
        (response keccak G1 sk (mul G1 G1.generator sk) (keccak m) k),
    response_reduced keccak G1 sk (mul G1 G1.generator sk) (keccak m) k,
    message,
    verify-response keccak G1 laws codec sk (keccak m) k key,
  )

  -- A message that cannot be written makes the check raise.
  pub verify_voter_signature-overflow :
      (G2 : PointLibrary) (election_id pseudonym : Bytes) (sk : ℕ) (cts : List (Bytes × Bytes))
      (zk_proof : Bytes) (att : Attestation) (msg : Bytes) (k : ℕ)
      → canonical_ballot_message election_id pseudonym cts zk_proof att ≡ err overflow_error
      → verify_voter_signature keccak G1 G2 election_id pseudonym
          (mul G1 G1.generator sk)
          cts
          zk_proof
          (signature_bytes sk msg k)
          att
        ≡ err overflow_error
  unfolding verify_voter_signature or_malformed signature_bytes
  verify_voter_signature-overflow G2 election_id pseudonym sk cts zk_proof att msg k message = rw (
    decode-wire keccak G1 laws codec (mul G1 G1.generator (k % curve_order))
        (response keccak G1 sk (mul G1 G1.generator sk) msg k),
    message,
  )
