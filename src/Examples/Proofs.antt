-- ===== src/Examples/Proofs.antt =====
-- Proofs over the group of scalars, with a function in place of the hash.
use generalised_elgamal_voti.Shared.{ℕ, ◌%◌, ◌≡◌, arith, true, [], ◌∷◌, ok}
use generalised_elgamal_voti.Shared.Bytes.{Bytes, encode as text}
use generalised_elgamal_voti.Params.{curve_order}
use generalised_elgamal_voti.Points.{PointLibrary, IsPrimeOrderGroup, HasCodec, mul}
use generalised_elgamal_voti.Points.Scalars.{scalar_library, scalar_laws, scalar_codec}
use generalised_elgamal_voti.Elgamal.{Ciphertext, encrypt}
use generalised_elgamal_voti.Elgamal.Homomorphism.{Encrypts, encrypt-Encrypts}
use generalised_elgamal_voti.Transcript.{Transcript, new_transcript}
use generalised_elgamal_voti.Proofs.{
  encode_dleq, decode_dleq, prove_dleq, verify_dleq, prove_decryption_share,
  verify_decryption_share, prove_budget_exact, verify_budget_exact,
}
use generalised_elgamal_voti.Proofs.Dleq.{prove_dleq-verify_dleq}
use generalised_elgamal_voti.Proofs.Shares.{
  decode_dleq-encode_dleq, prove_decryption_share-verify_decryption_share,
}
use generalised_elgamal_voti.Proofs.Budget.{prove_budget_exact-verify_budget_exact}

abbrev G2 : PointLibrary
G2 = scalar_library 96

abbrev laws : IsPrimeOrderGroup G2
laws = scalar_laws 96

codec : HasCodec G2 96
unfolding curve_order
codec = scalar_codec 96 (omega arith)

-- Stands in for the hash: the first byte of the message.
abbrev hash : Bytes → Bytes
hash [] = 1 ∷ []
hash (b ∷ bs) = b ∷ []

abbrev transcript : Transcript
transcript = new_transcript (text "example")

abbrev base : G2.Point
base = mul G2 G2.generator 7

prove_dleq-verify_dleq_example :
    (e : ℕ) × (z : ℕ) × (prove_dleq hash G2 G2.generator
        (mul G2 G2.generator 5)
        base
        (mul G2 base 5)
        5
        transcript
        9
      ≡ ok (e, z))
    × (verify_dleq hash G2 G2.generator (mul G2 G2.generator 5) base (mul G2 base 5) e z transcript
        ≡ ok true)
prove_dleq-verify_dleq_example =
    prove_dleq-verify_dleq hash G2 laws codec G2.generator base 5 transcript 9

decode_dleq-encode_dleq_example :
    decode_dleq (encode_dleq 300 70000) ≡ ok (300 % curve_order, 70000 % curve_order)
decode_dleq-encode_dleq_example = decode_dleq-encode_dleq 300 70000

prove_decryption_share-verify_decryption_share_example :
    (e : ℕ) × (z : ℕ) × (prove_decryption_share hash G2 transcript base base
        (mul G2 G2.generator 5)
        (mul G2 base 5)
        5
        2
        9
      ≡ ok (e, z))
    × (verify_decryption_share hash G2 transcript base base
          (mul G2 G2.generator 5)
          (mul G2 base 5)
          e
          z
          2
        ≡ ok true)
prove_decryption_share-verify_decryption_share_example =
    prove_decryption_share-verify_decryption_share hash G2 laws codec transcript base base 5 2 9
      (omega arith)

abbrev sum : Ciphertext G2
sum = let (c1, c2, _) = encrypt G2 base 10 4 in (c1, c2)

abbrev sum-Encrypts : Encrypts G2 base 10 sum
sum-Encrypts = encrypt-Encrypts G2 laws base 10 4

prove_budget_exact-verify_budget_exact_example :
    (e : ℕ) × (z : ℕ) × (prove_budget_exact hash G2 sum.0 sum.1 base 10 sum-Encrypts.randomness
        transcript 9
      ≡ ok (e, z))
    × (verify_budget_exact hash G2 sum.0 sum.1 base 10 e z transcript ≡ ok true)
prove_budget_exact-verify_budget_exact_example =
    prove_budget_exact-verify_budget_exact hash G2 laws codec base 10 sum sum-Encrypts transcript 9
