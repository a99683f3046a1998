-- ===== src/Attestation/Verification.antt =====
-- crypto/attestation.py: credentials that `sign_attestation` issues pass `verify_attestation`.
use generalised_elgamal_voti.Shared.{
  ℕ, ◌%◌, ◌≤◌, ◌≡◌, ◌≢◌, arith, true, length, length-append, ok, ◌++◌,
}
use generalised_elgamal_voti.Shared.Bytes.{Bytes, encode as text}
use generalised_elgamal_voti.Shared.Keys.{same_list_refl, number_key}
use generalised_elgamal_voti.Params.{curve_order, scalar_to_bytes, length-scalar_to_bytes}
use generalised_elgamal_voti.Points.{
  PointLibrary, IsPrimeOrderGroup, HasCodec, mul, g1_from_compressed,
}
use generalised_elgamal_voti.Points.Codec.{from_compressed-bytes}
use generalised_elgamal_voti.Transcript.Totality.{append-ok, append_scalar-ok}
use generalised_elgamal_voti.Transcript.{Transcript, new_transcript, preimage}
use generalised_elgamal_voti.Schnorr.Correctness.{
  encode-ok, decode-wire, sign-ok, response, response_reduced, verify-response,
}
use generalised_elgamal_voti.Attestation.Defs.{
  attestation_label, at_least_one, attestation_transcript, attestation_message, sign_attestation,
  checked_signature, verify_attestation_sig, verify_attestation, false_on_error,
}

attestation_transcript-ok :
    (election_id pseudonym vk : Bytes) (weight nonce : ℕ)
    → length election_id ≡ 32
    → length pseudonym ≡ 32
    → length vk ≡ 48
    → 1 ≤ weight
    → 1 ≤ nonce
    → (t : Transcript) × (attestation_transcript election_id pseudonym vk weight nonce ≡ ok t)
unfolding attestation_transcript
attestation_transcript-ok election_id pseudonym vk weight nonce e p v w n =
    let (t1, q1) =
      append-ok (new_transcript attestation_label) (text "attest:electionId") election_id
        (omega arith) (omega arith) in
    let (t2, q2) = append-ok t1 (text "attest:pseudonym") pseudonym (omega arith) (omega arith) in
    let (t3, q3) = append-ok t2 (text "attest:vk") vk (omega arith) (omega arith) in
    let (t4, q4) = append_scalar-ok t3 (text "attest:weight") weight (omega arith) in
    let (t5, q5) = append_scalar-ok t4 (text "attest:nonce") nonce (omega arith) in
    (t5, rw (e, p, v, at_least_one weight w, at_least_one nonce n, q1, q2, q3, q4, q5))

module _ (keccak : Bytes → Bytes) (L : PointLibrary) (laws : IsPrimeOrderGroup L)
    (codec : HasCodec L 48) where
  wire : (R : L.Point) (s : ℕ) → Bytes
  wire R s = L.to_compressed_bytes R ++ scalar_to_bytes s

  module _ (sk : ℕ) (election_id pseudonym vk : Bytes) (weight nonce k : ℕ)
      (key : mul L L.generator sk ≢ L.identity) (e : length election_id ≡ 32)
      (p : length pseudonym ≡ 32) (v : length vk ≡ 48) (w : 1 ≤ weight) (n : 1 ≤ nonce) where
    -- The credential of the next theorem, with the size of its signature.
    pub sign_attestation-verify_sized :
        (signature : Bytes) × (sign_attestation keccak L sk
            (mul L L.generator sk)
            election_id
            pseudonym
            vk
            weight
            nonce
            k
          ≡ ok signature)
        × (verify_attestation keccak L
              (L.to_compressed_bytes (mul L L.generator sk))
              (record {
                election_id = election_id;
                pseudonym = pseudonym;
                vk = vk;
                weight = weight;
                signature = signature;
                nonce = nonce;
              })
              election_id
            ≡ true)
        × (length signature ≡ 80)
    unfolding sign_attestation verify_attestation verify_attestation_sig checked_signature
        attestation_message g1_from_compressed wire false_on_error
    sign_attestation-verify_sized =
        let (t, made) = attestation_transcript-ok election_id pseudonym vk weight nonce e p v w n in
        let msg : Bytes = keccak (preimage t) in
        let public_key : L.Point = mul L L.generator sk in
        let R : L.Point = mul L L.generator (k % curve_order) in
        let s : ℕ = response keccak L sk public_key msg k in
        (
          wire R s,
          rw (
            made,
            sign-ok keccak L laws codec sk public_key msg k,
            encode-ok keccak L laws codec R s,
          ),
          rw (
            same_list_refl election_id,
            e,
            p,
            v,
            at_least_one weight w,
            at_least_one nonce n,
            from_compressed-bytes L 48 codec public_key,
            decode-wire keccak L laws codec R s,
            made,
            response_reduced keccak L sk public_key msg k,
            verify-response keccak L laws codec sk msg k key,
          ),
          omega (
            arith,
            length-append (L.to_compressed_bytes R) (scalar_to_bytes s),
            codec.encoded_length R,
            length-scalar_to_bytes s,
          ),
        )

    -- A credential issued with a key that is not the identity, over fields of the right sizes with
    -- weight and counter at least 1, is issued without an error and passes the check for its
    -- election.
    pub sign_attestation-verify_attestation :
        (signature : Bytes) × (sign_attestation keccak L sk
            (mul L L.generator sk)
            election_id
            pseudonym
            vk
            weight
            nonce
            k
          ≡ ok signature)
        × (verify_attestation keccak L
              (L.to_compressed_bytes (mul L L.generator sk))
              (record {
                election_id = election_id;
                pseudonym = pseudonym;
                vk = vk;
                weight = weight;
                signature = signature;
                nonce = nonce;
              })
              election_id
            ≡ true)
    sign_attestation-verify_attestation =
        let (signature, issued, valid, _) = sign_attestation-verify_sized in
        (signature, issued, valid)
