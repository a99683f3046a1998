-- ===== src/Examples/Credentials.antt =====
-- A signature and a credential over the group of scalars, with a function in place of the hash.
use generalised_elgamal_voti.Shared.{
  ℕ, ◌+◌, ◌*◌, ◌%◌, ◌≡◌, ◌≢◌, refl, ap, arith, true, [], ◌∷◌, replicate, ok,
}
use generalised_elgamal_voti.Shared.Bytes.{Bytes}
use generalised_elgamal_voti.Params.{curve_order}
use generalised_elgamal_voti.Points.{PointLibrary, IsPrimeOrderGroup, HasCodec, mul}
use generalised_elgamal_voti.Points.Scalars.{Scalar, scalar_library, scalar_laws, scalar_codec}
use generalised_elgamal_voti.Schnorr.{sign, verify, encode, decode}
use generalised_elgamal_voti.Schnorr.Correctness.{sign-verify, encode-decode}
use generalised_elgamal_voti.Attestation.{Attestation, sign_attestation, verify_attestation}
use generalised_elgamal_voti.Attestation.Verification.{sign_attestation-verify_attestation}
use generalised_elgamal_voti.Attestation.Weights.{verify_attestation_wraps}

abbrev G1 : PointLibrary
G1 = scalar_library 48

abbrev laws : IsPrimeOrderGroup G1
laws = scalar_laws 48

codec : HasCodec G1 48
unfolding curve_order
codec = scalar_codec 48 (omega arith)

-- Stands in for the hash: the first byte of the message.
abbrev hash : Bytes → Bytes
hash [] = 1 ∷ []
hash (b ∷ bs) = b ∷ []

abbrev key : G1.Point
key = mul G1 G1.generator 5

key-ne : key ≢ G1.identity
unfolding mul curve_order
key-ne = λ h. let numbers : 5 ≡ 0 = ap (λ (s : Scalar). s.0) h in absurd (omega (arith, numbers))

sign-verify_example :
    (R : G1.Point) × (s : ℕ) × (sign hash G1 5 key (1 ∷ 2 ∷ []) 9 ≡ ok (R, s))
    × (verify hash G1 key (1 ∷ 2 ∷ []) R s ≡ ok true)
sign-verify_example = sign-verify hash G1 laws codec 5 (1 ∷ 2 ∷ []) 9 key-ne

encode-decode_example :
    (b : Bytes) × (encode hash G1 key 300 ≡ ok b) × (decode hash G1 b ≡ ok (key, 300 % curve_order))
encode-decode_example = encode-decode hash G1 laws codec key 300

abbrev voter : Bytes
voter = replicate 32 4

abbrev voter_key : Bytes
voter_key = replicate 48 3

abbrev election : Bytes
election = replicate 32 1

sign_attestation-verify_attestation_example :
    (signature : Bytes) × (sign_attestation hash G1 5 key election voter voter_key 20 1 9
      ≡ ok signature)
    × (verify_attestation hash G1
          (G1.to_compressed_bytes key)
          (record {
            election_id = election;
            pseudonym = voter;
            vk = voter_key;
            weight = 20;
            signature = signature;
            nonce = 1;
          })
          election
        ≡ true)
sign_attestation-verify_attestation_example =
    sign_attestation-verify_attestation hash G1 laws codec 5 election voter voter_key 20 1 9 key-ne
      refl refl refl (omega arith) (omega arith)

abbrev credential : Attestation
credential = record {
  election_id = election;
  pseudonym = voter;
  vk = voter_key;
  weight = 20;
  signature = replicate 80 0;
  nonce = 1;
}

verify_attestation_wraps_example :
    verify_attestation hash G1
      (G1.to_compressed_bytes key)
      (record credential { weight = 20 + 1 * curve_order; nonce = 1 + 0 * curve_order })
      election
    ≡ verify_attestation hash G1 (G1.to_compressed_bytes key) credential election
verify_attestation_wraps_example =
    verify_attestation_wraps hash G1 (G1.to_compressed_bytes key) credential election 1 0
      (omega arith) (omega arith)
