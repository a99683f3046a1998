-- ===== src/Examples/Ballots.antt =====
-- A ballot for two candidates over the groups of scalars, with a function in place of the hash.
use generalised_elgamal_voti.Shared.{
  ℕ, ◌+◌, ◌^◌, ◌<◌, ◌≡◌, ◌≢◌, refl, ap, arith, true, List, [], ◌∷◌, length, replicate, none, ok,
  err, overflow_error,
}
use generalised_elgamal_voti.Shared.Bytes.{Bytes, encode as text}
use generalised_elgamal_voti.Params.{curve_order}
use generalised_elgamal_voti.Points.{PointLibrary, IsPrimeOrderGroup, HasCodec, mul}
use generalised_elgamal_voti.Points.Scalars.{Scalar, scalar_library, scalar_laws, scalar_codec}
use generalised_elgamal_voti.Elgamal.{Ciphertext, encrypt}
use generalised_elgamal_voti.Elgamal.Homomorphism.{Encrypts, encrypt-Encrypts}
use generalised_elgamal_voti.Transcript.{Transcript, new_transcript}
use generalised_elgamal_voti.Attestation.{Attestation, sign_attestation}
use generalised_elgamal_voti.Shared.Int.{pos}
use generalised_elgamal_voti.Config.{ElectionConfig, exact, variant_a, last_wins}
use generalised_elgamal_voti.Admission.{validate_ballot}
use generalised_elgamal_voti.Admission.Honest.{credential, stored_as, build_ballot-validate_ballot}
use generalised_elgamal_voti.Proofs.{OrBranch, prove_or, verify_or}
use generalised_elgamal_voti.Proofs.Or.{IsReduced}
use generalised_elgamal_voti.Proofs.Completeness.{prove_or-verify_or}
use generalised_elgamal_voti.Ballot.{
  BuiltBallot, RangeNonces, sum_of, verified, build_ballot, verify_ballot_crypto,
  encode_ballot_validity_proof, decode_ballot_validity_proof, canonical_ballot_message,
}
use generalised_elgamal_voti.Ballot.Reading.{AreProofs}
use generalised_elgamal_voti.Ballot.RoundTrip.{encode_ballot_validity_proof-decode}
use generalised_elgamal_voti.Ballot.Honest.{canonical_ballot_message-ok}
use generalised_elgamal_voti.Ballot.Framing.{canonical_ballot_message_injective}
use generalised_elgamal_voti.Ballot.Completeness.{
  build_ballot-verify_ballot_crypto, verify_ballot_crypto-overflow,
}
use generalised_elgamal_voti.Shared.{All}

abbrev G1 : PointLibrary
G1 = scalar_library 48

abbrev G2 : PointLibrary
G2 = scalar_library 96

abbrev laws1 : IsPrimeOrderGroup G1
laws1 = scalar_laws 48

abbrev laws2 : IsPrimeOrderGroup G2
laws2 = scalar_laws 96

codec1 : HasCodec G1 48
unfolding curve_order
codec1 = scalar_codec 48 (omega arith)

codec2 : HasCodec G2 96
unfolding curve_order
codec2 = scalar_codec 96 (omega arith)

-- Stands in for the hash: the first byte of the message.
abbrev hash : Bytes → Bytes
hash [] = 1 ∷ []
hash (b ∷ bs) = b ∷ []

abbrev mpk : G2.Point
mpk = mul G2 G2.generator 7

mpk-ne : mpk ≢ G2.identity
unfolding mul curve_order
mpk-ne = λ h. let numbers : 7 ≡ 0 = ap (λ (s : Scalar). s.0) h in absurd (omega (arith, numbers))

voter-ne : mul G1 G1.generator 5 ≢ G1.identity
unfolding mul curve_order
voter-ne = λ h. let numbers : 5 ≡ 0 = ap (λ (s : Scalar). s.0) h in absurd (omega (arith, numbers))

abbrev election : Bytes
election = replicate 32 1

abbrev voter : Bytes
voter = replicate 32 4

abbrev given : Attestation
given = record {
  election_id = election;
  pseudonym = voter;
  vk = replicate 48 3;
  weight = 20;
  signature = replicate 80 0;
  nonce = 1;
}

abbrev votes : List ℕ
votes = 1 ∷ 0 ∷ []

spent : sum_of votes ≡ 1
unfolding sum_of
spent = refl

abbrev pairs : List (ℕ × ℕ)
pairs = (3, 4) ∷ (5, 6) ∷ []

abbrev nonces : List RangeNonces
nonces = record { w = 8; sims = pairs } ∷ record { w = 9; sims = pairs } ∷ []

build_ballot-verify_ballot_crypto_example :
    (b : BuiltBallot) × (build_ballot hash G1 G2 mpk election voter 5
        (mul G1 G1.generator 5)
        given
        votes
        2
        1
        (11 ∷ 12 ∷ [])
        nonces
        13
        14
      ≡ ok b)
    × (verify_ballot_crypto hash G1 G2 mpk b.election_id b.pseudonym b.vk b.ciphertexts b.zk_proof
          b.voter_signature given 2 1
        ≡ ok verified)
build_ballot-verify_ballot_crypto_example =
    build_ballot-verify_ballot_crypto hash G1 G2 laws1 laws2 codec1 codec2 mpk votes 1
      (11 ∷ 12 ∷ []) nonces refl refl (refl, (refl, tt)) spent (omega arith) (omega arith) election
      voter 5 given 13 14 mpk-ne voter-ne refl refl refl refl (omega arith) (omega arith)
      (omega arith) (omega arith) (omega arith) (omega arith)

abbrev inflated : Attestation
inflated = record given { weight = 256 ^ 32 + 20 }

verify_ballot_crypto-overflow_example :
    (b : BuiltBallot) × (build_ballot hash G1 G2 mpk election voter 5
        (mul G1 G1.generator 5)
        given
        votes
        2
        1
        (11 ∷ 12 ∷ [])
        nonces
        13
        14
      ≡ ok b)
    × (verify_ballot_crypto hash G1 G2 mpk b.election_id b.pseudonym b.vk b.ciphertexts b.zk_proof
          b.voter_signature inflated 2 1
        ≡ err overflow_error)
verify_ballot_crypto-overflow_example =
    verify_ballot_crypto-overflow hash G1 G2 laws1 laws2 codec1 codec2 mpk votes 1 (11 ∷ 12 ∷ [])
      nonces refl refl (refl, (refl, tt)) spent (omega arith) (omega arith) election voter 5 given
      13 14 mpk-ne voter-ne refl refl refl refl (omega arith) (omega arith) (omega arith)
      (omega arith) (omega arith) (omega arith) inflated refl refl (omega arith)

abbrev ct : Ciphertext G2
ct = let (c1, c2, _) = encrypt G2 mpk 1 4 in (c1, c2)

abbrev ct-Encrypts : Encrypts G2 mpk 1 ct
ct-Encrypts = encrypt-Encrypts G2 laws2 mpk 1 4

abbrev transcript : Transcript
transcript = new_transcript (text "example")

prove_or-verify_or_example :
    (branches : List (OrBranch G2)) × (after : Transcript) × (prove_or G2 hash ct.0 ct.1 mpk
        (0 ∷ 1 ∷ [])
        ct-Encrypts.randomness
        1
        transcript
        9
        pairs
      ≡ ok (branches, after))
    × (length branches ≡ 2)
    × All (IsReduced G2) branches
    × (verify_or G2 hash ct.0 ct.1 mpk (0 ∷ 1 ∷ []) branches transcript ≡ ok (true, after))
prove_or-verify_or_example =
    prove_or-verify_or hash G2 laws2 codec2 mpk (0 ∷ 1 ∷ []) 1 1 ct ct-Encrypts refl (omega arith)
      transcript 9 pairs refl

abbrev branch : OrBranch G2
branch = record { a1 = mpk; a2 = G2.generator; e = 300; z = 70000 }

abbrev range_proofs : List (List (OrBranch G2))
range_proofs = (branch ∷ branch ∷ []) ∷ (branch ∷ branch ∷ []) ∷ []

branches-reduced : AreProofs G2 codec2 2 range_proofs
unfolding curve_order
branches-reduced =
    let small : IsReduced G2 branch = (omega arith, omega arith) in
    let one : (2 ≡ 2) × All (IsReduced G2) (branch ∷ branch ∷ []) = (refl, (small, (small, tt))) in
    (one, (one, tt))

small_scalar : 300 < curve_order
unfolding curve_order
small_scalar = omega arith

encode_ballot_validity_proof-decode_example :
    (b : Bytes) × (encode_ballot_validity_proof G2 range_proofs 300 300 ≡ ok b)
    × (decode_ballot_validity_proof G2 b 2 1 ≡ ok (range_proofs, 300, 300))
encode_ballot_validity_proof-decode_example =
    encode_ballot_validity_proof-decode G2 codec2 1 range_proofs 300 300 branches-reduced
      (omega arith) (omega arith) (omega arith) small_scalar small_scalar

abbrev proof : Bytes
proof = 7 ∷ []

abbrev wire : List (Bytes × Bytes)
wire = (replicate 96 5, replicate 96 6) ∷ []

abbrev signed : (m : Bytes) × (canonical_ballot_message election voter wire proof given ≡ ok m)
unfolding generalised_elgamal_voti.Ballot.bad_ciphertext
signed =
    canonical_ballot_message-ok election voter wire proof given refl refl refl (omega arith)
      (omega arith) refl refl (omega arith) (omega arith) (omega arith)

canonical_ballot_message_injective_example :
    (election ≡ election)
    × (voter ≡ voter)
    × (wire ≡ wire)
    × (proof ≡ proof)
    × (voter ≡ voter)
    × (given.vk ≡ given.vk)
    × (given.weight ≡ given.weight)
    × (given.nonce ≡ given.nonce)
    × (given.signature ≡ given.signature)
canonical_ballot_message_injective_example =
    canonical_ballot_message_injective election election voter voter wire wire proof proof given
      given signed.0 signed.1 signed.1

abbrev config : ElectionConfig
config = record {
  election_id = election;
  num_candidates = 2;
  budget = 1;
  mode = exact;
  variant = variant_a;
  weighted = true;
  duplicate_policy = last_wins;
  voting_start = 100;
  voting_end = 200;
  threshold = record { t = 1; n = 1 };
  keypers = record { signing_key = 1 ∷ []; url = [] } ∷ [];
  eligibility_key = G1.to_compressed_bytes (mul G1 G1.generator 3);
  result_publisher_key = [];
  gateway_keys = [];
  admin_key = [];
  protocol_version = [];
  scale = 1;
  self_submit_fee_wei = pos 0;
}

issuer-ne : mul G1 G1.generator 3 ≢ G1.identity
unfolding mul curve_order
issuer-ne = λ h. let numbers : 3 ≡ 0 = ap (λ (s : Scalar). s.0) h in absurd (omega (arith, numbers))

abbrev voter_key : Bytes
voter_key = G1.to_compressed_bytes (mul G1 G1.generator 5)

build_ballot-validate_ballot_example :
    (signature : Bytes) × (b : BuiltBallot) × (sign_attestation hash G1 3
        (mul G1 G1.generator 3)
        election
        voter
        voter_key
        20
        1
        15
      ≡ ok signature)
    × (build_ballot hash G1 G2 mpk election voter 5
          (mul G1 G1.generator 5)
          (credential election voter voter_key 20 1 signature)
          votes
          2
          1
          (11 ∷ 12 ∷ [])
          nonces
          13
          14
        ≡ ok b)
    × (validate_ballot hash G1 G2
          (stored_as 0 150 (credential election voter voter_key 20 1 signature) b)
          config
          mpk
        ≡ ok none)
build_ballot-validate_ballot_example =
    build_ballot-validate_ballot hash G1 G2 laws1 laws2 codec1 codec2 config 3 mpk votes
      (11 ∷ 12 ∷ []) nonces voter 5 20 1 15 13 14 0 150 refl issuer-ne voter-ne mpk-ne refl refl
      (omega arith) (omega arith) (omega arith) (omega arith) refl (omega arith) (omega arith) spent
      (omega arith) (omega arith) (omega arith) refl refl (refl, (refl, tt)) (omega arith)
      (omega arith)
