-- ===== src/Ballot/Completeness.antt =====
-- crypto/ballot.py: a ballot that `build_ballot` makes is accepted by `verify_ballot_crypto`.
use generalised_elgamal_voti.Shared.{
  ℕ, ◌+◌, ◌*◌, ◌^◌, ◌<◌, ◌≤◌, ◌≡◌, ◌≢◌, ap, ◌∙◌, arith, List, length, ok, err, overflow_error, err,
  overflow_error,
}
use generalised_elgamal_voti.Shared.Bytes.{Bytes}
use generalised_elgamal_voti.Points.{PointLibrary, IsPrimeOrderGroup, HasCodec, mul}
use generalised_elgamal_voti.Attestation.{Attestation}
use generalised_elgamal_voti.Ballot.Defs.{
  verified, BuiltBallot, RangeNonces, sum_of, build_ballot, verify_voter_signature,
  verify_ballot_crypto,
}
use generalised_elgamal_voti.Ballot.Ranges.{HasSims}
use generalised_elgamal_voti.Ballot.Honest.{canonical_ballot_message-overflow}
use generalised_elgamal_voti.Ballot.Signed.{
  verify_voter_signature-signed, verify_voter_signature-overflow,
}
use generalised_elgamal_voti.Ballot.Building.{build_ballot-honest}

module _ (keccak : Bytes → Bytes) (G1 G2 : PointLibrary) (laws1 : IsPrimeOrderGroup G1)
    (laws2 : IsPrimeOrderGroup G2) (codec1 : HasCodec G1 48) (codec2 : HasCodec G2 96)
    (mpk : G2.Point) (votes : List ℕ) (budget : ℕ) (rs : List ℕ) (nonces : List RangeNonces)
    (enough : length rs ≡ length votes) (each : length nonces ≡ length votes)
    (sims : HasSims (budget + 1) nonces) (spent : sum_of votes ≡ budget)
    (few : length votes ≤ 65535) (small : budget ≤ 65534) where
  -- The ballot of the next theorem, with the fields that it takes from its arguments.
  pub build_ballot-verified :
      (election_id pseudonym : Bytes) (sk : ℕ) (att : Attestation) (budget_proof_w schnorr_k : ℕ)
      → mpk ≢ G2.identity
      → mul G1 G1.generator sk ≢ G1.identity
      → length election_id ≡ 32
      → length pseudonym ≡ 32
      → length att.pseudonym ≡ 32
      → length att.vk ≡ 48
      → att.weight < 256 ^ 32
      → att.nonce < 256 ^ 32
      → length att.signature < 65536
      → 1 ≤ length votes
      → 1 ≤ budget
      → length votes * ((budget + 1) * 256) < 4294000000
      → (b : BuiltBallot) × (build_ballot keccak G1 G2 mpk election_id pseudonym sk
            (mul G1 G1.generator sk)
            att
            votes
            (length votes)
            budget
            rs
            nonces
            budget_proof_w
            schnorr_k
          ≡ ok b)
        × (verify_ballot_crypto keccak G1 G2 mpk b.election_id b.pseudonym b.vk b.ciphertexts
              b.zk_proof b.voter_signature att
              (length votes)
              budget
            ≡ ok verified)
        × (b.election_id ≡ election_id)
        × (b.pseudonym ≡ pseudonym)
        × (b.vk ≡ G1.to_compressed_bytes (mul G1 G1.generator sk))
  build_ballot-verified election_id pseudonym sk att budget_proof_w schnorr_k key voter h1 h2 h3 h4
        h5 h6 h7 h8 h9 h10 =
      let (b, m, built, message, signed, check, _, _, _, own_id, own_pseudonym, own_vk) =
        build_ballot-honest keccak G1 G2 laws1 laws2 codec1 codec2 mpk votes budget rs nonces enough
          each sims spent few small election_id pseudonym sk att budget_proof_w schnorr_k key voter
          h1 h2 h3 h4 h5 h6 h7 h8 h9 h10 in
      (
        b,
        built,
        check att
            ∙ ap
                (λ sig.
                  verify_voter_signature keccak G1 G2 election_id pseudonym (mul G1 G1.generator sk)
                    b.ciphertexts b.zk_proof sig att)
                signed
            ∙ verify_voter_signature-signed keccak G1 laws1 codec1 G2 election_id pseudonym sk
                b.ciphertexts b.zk_proof att m schnorr_k voter message,
        own_id,
        own_pseudonym,
        own_vk,
      )

  -- A ballot whose votes spend the budget exactly is made without an error, whatever random numbers are
  -- drawn, and it is verified. The keys are not the identity, the identifiers and the credential have
  -- their sizes, there are 1 to 65535 candidates, the budget is 1 to 65534, and the proof is shorter
  -- than 2 ^ 32 bytes.
  pub build_ballot-verify_ballot_crypto :
      (election_id pseudonym : Bytes) (sk : ℕ) (att : Attestation) (budget_proof_w schnorr_k : ℕ)
      → mpk ≢ G2.identity
      → mul G1 G1.generator sk ≢ G1.identity
      → length election_id ≡ 32
      → length pseudonym ≡ 32
      → length att.pseudonym ≡ 32
      → length att.vk ≡ 48
      → att.weight < 256 ^ 32
      → att.nonce < 256 ^ 32
      → length att.signature < 65536
      → 1 ≤ length votes
      → 1 ≤ budget
      → length votes * ((budget + 1) * 256) < 4294000000
      → (b : BuiltBallot) × (build_ballot keccak G1 G2 mpk election_id pseudonym sk
            (mul G1 G1.generator sk)
            att
            votes
            (length votes)
            budget
            rs
            nonces
            budget_proof_w
            schnorr_k
          ≡ ok b)
        × (verify_ballot_crypto keccak G1 G2 mpk b.election_id b.pseudonym b.vk b.ciphertexts
              b.zk_proof b.voter_signature att
              (length votes)
              budget
            ≡ ok verified)
  build_ballot-verify_ballot_crypto election_id pseudonym sk att budget_proof_w schnorr_k key voter
        h1 h2 h3 h4 h5 h6 h7 h8 h9 h10 =
      let (b, built, checked, _, _, _) =
        build_ballot-verified election_id pseudonym sk att budget_proof_w schnorr_k key voter h1 h2
          h3 h4 h5 h6 h7 h8 h9 h10 in
      (b, built, checked)

  -- Under the conditions with which a ballot is made and verified, the same ballot with another
  -- credential of 2 ^ 256 votes or more is not refused: the check raises an OverflowError, which it does
  -- not catch.
  pub verify_ballot_crypto-overflow :
      (election_id pseudonym : Bytes) (sk : ℕ) (att : Attestation) (budget_proof_w schnorr_k : ℕ)
      → mpk ≢ G2.identity
      → mul G1 G1.generator sk ≢ G1.identity
      → length election_id ≡ 32
      → length pseudonym ≡ 32
      → length att.pseudonym ≡ 32
      → length att.vk ≡ 48
      → att.weight < 256 ^ 32
      → att.nonce < 256 ^ 32
      → length att.signature < 65536
      → 1 ≤ length votes
      → 1 ≤ budget
      → length votes * ((budget + 1) * 256) < 4294000000
      → (other : Attestation) → length other.pseudonym ≡ 32
      → length other.vk ≡ 48
      → 256 ^ 32 ≤ other.weight
      → (b : BuiltBallot) × (build_ballot keccak G1 G2 mpk election_id pseudonym sk
            (mul G1 G1.generator sk)
            att
            votes
            (length votes)
            budget
            rs
            nonces
            budget_proof_w
            schnorr_k
          ≡ ok b)
        × (verify_ballot_crypto keccak G1 G2 mpk b.election_id b.pseudonym b.vk b.ciphertexts
              b.zk_proof b.voter_signature other
              (length votes)
              budget
            ≡ err overflow_error)
  verify_ballot_crypto-overflow election_id pseudonym sk att budget_proof_w schnorr_k key voter h1
        h2 h3 h4 h5 h6 h7 h8 h9 h10 other other_pseudonym other_vk large =
      let (b, m, built, message, signed, check, sizes, count, proof, _, _, _) =
        build_ballot-honest keccak G1 G2 laws1 laws2 codec1 codec2 mpk votes budget rs nonces enough
          each sims spent few small election_id pseudonym sk att budget_proof_w schnorr_k key voter
          h1 h2 h3 h4 h5 h6 h7 h8 h9 h10 in
      (
        b,
        built,
        check other
            ∙ ap
                (λ sig.
                  verify_voter_signature keccak G1 G2 election_id pseudonym (mul G1 G1.generator sk)
                    b.ciphertexts b.zk_proof sig other)
                signed
            ∙ verify_voter_signature-overflow keccak G1 laws1 codec1 G2 election_id pseudonym sk
                b.ciphertexts b.zk_proof other (keccak m) schnorr_k
                (canonical_ballot_message-overflow election_id pseudonym b.ciphertexts b.zk_proof
                  other h1 h2 sizes (omega arith) proof other_pseudonym other_vk large),
      )
