-- ===== src/Admission/Honest.antt =====
-- core/admission.py: an honest ballot under an issued credential passes the single-ballot check.
use generalised_elgamal_voti.Shared.{
  ℕ, ◌+◌, ◌*◌, ◌^◌, ◌<◌, ◌≤◌, ◌≡◌, ◌≢◌, refl, sym, subst, ap, ap₂, arith, true, false, List, [],
  ◌∷◌, length, Option, none, some, ok, ◌>>=◌,
}
use generalised_elgamal_voti.Shared.Bytes.{Bytes}
use generalised_elgamal_voti.Shared.Keys.{same_list_refl, number_key}
use generalised_elgamal_voti.Points.{PointLibrary, IsPrimeOrderGroup, HasCodec, mul}
use generalised_elgamal_voti.Attestation.{Attestation, sign_attestation, verify_attestation}
use generalised_elgamal_voti.Attestation.Verification.{sign_attestation-verify_sized}
use generalised_elgamal_voti.Config.{ElectionConfig}
use generalised_elgamal_voti.State.{is_voting_open}
use generalised_elgamal_voti.Envelopes.{Ciphertext, StoredBallot}
use generalised_elgamal_voti.Ballot.{
  BuiltBallot, RangeNonces, sum_of, verified, build_ballot, verify_ballot_crypto,
}
use generalised_elgamal_voti.Ballot.Ranges.{HasSims}
use generalised_elgamal_voti.Ballot.Completeness.{build_ballot-verified}
use generalised_elgamal_voti.Admission.Defs.{
  reason_of, is_out_of_window, ciphertext_bytes, validate_ballot,
}

-- The ciphertexts of a built ballot in an envelope.
unfoldable pub envelope_ciphertexts : List (Bytes × Bytes) → List Ciphertext
envelope_ciphertexts [] = []
envelope_ciphertexts ((c1, c2) ∷ cts) = record { c1 = c1; c2 = c2 } ∷ envelope_ciphertexts cts

-- A built ballot as the data layer stores it, with its credential and the time of its receipt.
abbrev pub stored_as : (sequence_number time : ℕ) → Attestation → BuiltBallot → StoredBallot
stored_as sequence_number time att b = record {
  sequence_number = sequence_number;
  envelope = record {
    election_id = b.election_id;
    pseudonym = b.pseudonym;
    vk = b.vk;
    ciphertexts = envelope_ciphertexts b.ciphertexts;
    zk_proof = b.zk_proof;
    voter_signature = b.voter_signature;
    attestation = att;
  };
  submitted_at = some time;
}

-- The credential that the eligibility service issues, with its signature.
abbrev pub credential :
    (election_id pseudonym vk : Bytes) (weight nonce : ℕ) (signature : Bytes) → Attestation
credential election_id pseudonym vk weight nonce signature = record {
  election_id = election_id;
  pseudonym = pseudonym;
  vk = vk;
  weight = weight;
  signature = signature;
  nonce = nonce;
}

ciphertext_bytes-envelope_ciphertexts :
    (cts : List (Bytes × Bytes)) → ciphertext_bytes (envelope_ciphertexts cts) ≡ cts
unfolding ciphertext_bytes envelope_ciphertexts
ciphertext_bytes-envelope_ciphertexts [] = refl
ciphertext_bytes-envelope_ciphertexts ((c1, c2) ∷ cts) =
    ap (◌∷◌ (c1, c2)) (ciphertext_bytes-envelope_ciphertexts cts)

module _ (keccak : Bytes → Bytes) (G1 G2 : PointLibrary) where
  -- The tests of the check, passed one by one.
  validate_ballot-none :
      (config : ElectionConfig) (mpk : G2.Point) (att : Attestation) (b : BuiltBallot)
      (sequence_number time : ℕ)
      → b.election_id ≡ config.election_id
      → config.voting_start ≤ time
      → time < config.voting_end
      → att.election_id ≡ config.election_id
      → att.pseudonym ≡ b.pseudonym
      → att.vk ≡ b.vk
      → verify_attestation keccak G1 config.eligibility_key att config.election_id ≡ true
      → verify_ballot_crypto keccak G1 G2 mpk b.election_id b.pseudonym b.vk b.ciphertexts
          b.zk_proof b.voter_signature att config.num_candidates config.budget
        ≡ ok verified
      → validate_ballot keccak G1 G2 (stored_as sequence_number time att b) config mpk ≡ ok none
  unfolding validate_ballot is_out_of_window is_voting_open reason_of
  validate_ballot-none config mpk att b sequence_number time id_eq started running att_id
        att_pseudonym att_vk attested checked =
      let early : generalised_elgamal_voti.Shared.leb config.voting_start time ≡ true =
        ground arith in
      let late : generalised_elgamal_voti.Shared.ltb time config.voting_end ≡ true = ground arith in
      rw (
        early,
        late,
        ciphertext_bytes-envelope_ciphertexts b.ciphertexts,
        checked,
        attested,
        id_eq,
        att_id,
        att_pseudonym,
        att_vk,
        same_list_refl config.election_id,
        same_list_refl b.pseudonym,
        same_list_refl b.vk,
      )

  module _ (laws1 : IsPrimeOrderGroup G1) (laws2 : IsPrimeOrderGroup G2) (codec1 : HasCodec G1 48)
      (codec2 : HasCodec G2 96) (config : ElectionConfig) (issuer : ℕ) (mpk : G2.Point)
      (votes : List ℕ) (rs : List ℕ) (nonces : List RangeNonces) where
    -- A voter whose votes spend the budget exactly, with a credential that the key of the election's
    -- eligibility service issues for the voter's key, makes a ballot that the single-ballot check of the
    -- election accepts when it was received inside the voting window. The credential and the ballot are
    -- made without an error, whatever random numbers are drawn. The keys are not the identity, the
    -- identifiers have 32 bytes, weight and counter are at least 1 and below 2 ^ 256, there is a vote for each
    -- of 1 to 65535 candidates, the budget is 1 to 65534, and the proof is shorter than 2 ^ 32 bytes.
    pub build_ballot-validate_ballot :
        (pseudonym : Bytes)
        (sk weight nonce attestation_k budget_proof_w schnorr_k sequence_number time : ℕ)
        → config.eligibility_key ≡ G1.to_compressed_bytes (mul G1 G1.generator issuer)
        → mul G1 G1.generator issuer ≢ G1.identity
        → mul G1 G1.generator sk ≢ G1.identity
        → mpk ≢ G2.identity
        → length config.election_id ≡ 32
        → length pseudonym ≡ 32
        → 1 ≤ weight
        → weight < 256 ^ 32
        → 1 ≤ nonce
        → nonce < 256 ^ 32
        → length votes ≡ config.num_candidates
        → 1 ≤ length votes
        → length votes ≤ 65535
        → sum_of votes ≡ config.budget
        → 1 ≤ config.budget
        → config.budget ≤ 65534
        → length votes * ((config.budget + 1) * 256) < 4294000000
        → length rs ≡ length votes
        → length nonces ≡ length votes
        → HasSims (config.budget + 1) nonces
        → config.voting_start ≤ time
        → time < config.voting_end
        → (signature : Bytes) × (b : BuiltBallot) × (sign_attestation keccak G1 issuer
              (mul G1 G1.generator issuer)
              config.election_id
              pseudonym
              (G1.to_compressed_bytes (mul G1 G1.generator sk))
              weight
              nonce
              attestation_k
            ≡ ok signature)
          × (build_ballot keccak G1 G2 mpk config.election_id pseudonym sk
                (mul G1 G1.generator sk)
                (credential config.election_id pseudonym
                  (G1.to_compressed_bytes (mul G1 G1.generator sk))
                  weight
                  nonce
                  signature)
                votes
                config.num_candidates
                config.budget
                rs
                nonces
                budget_proof_w
                schnorr_k
              ≡ ok b)
          × (validate_ballot keccak G1 G2
                (stored_as sequence_number time
                  (credential config.election_id pseudonym
                    (G1.to_compressed_bytes (mul G1 G1.generator sk))
                    weight
                    nonce
                    signature)
                  b)
                config
                mpk
              ≡ ok none)
    build_ballot-validate_ballot pseudonym sk weight nonce attestation_k budget_proof_w schnorr_k
          sequence_number time eligible issuer_key voter_key key id_size pseudonym_size w w_max n
          n_max count some_vote few spent some_budget small short enough each sims started running =
        let vk = G1.to_compressed_bytes (mul G1 G1.generator sk) in
        let (signature, issued, valid, size) =
          sign_attestation-verify_sized keccak G1 laws1 codec1 issuer config.election_id pseudonym
            vk weight nonce attestation_k issuer_key id_size pseudonym_size
            (codec1.encoded_length (mul G1 G1.generator sk)) w n in
        let att = credential config.election_id pseudonym vk weight nonce signature in
        let (b, built, checked, own_id, own_pseudonym, own_vk) =
          build_ballot-verified keccak G1 G2 laws1 laws2 codec1 codec2 mpk votes config.budget rs
            nonces enough each sims spent few small config.election_id pseudonym sk att
            budget_proof_w schnorr_k key voter_key id_size pseudonym_size pseudonym_size
            (codec1.encoded_length (mul G1 G1.generator sk)) w_max n_max (omega arith) some_vote
            some_budget short in
        (
          signature,
          b,
          issued,
          subst
              (λ c.
                build_ballot keccak G1 G2 mpk config.election_id pseudonym sk
                  (mul G1 G1.generator sk) att votes c config.budget rs nonces budget_proof_w
                  schnorr_k
                ≡ ok b)
              count built,
          validate_ballot-none config mpk att b sequence_number time own_id started running refl
              (sym own_pseudonym) (sym own_vk) (rw eligible valid)
              (subst
                (λ c.
                  verify_ballot_crypto keccak G1 G2 mpk b.election_id b.pseudonym b.vk b.ciphertexts
                    b.zk_proof b.voter_signature att c config.budget
                  ≡ ok verified)
                count checked),
        )
