-- ===== src/WriteAuth/Digests.antt =====
-- core/write_auth.py: the digests that keypers and gateways sign.
use generalised_elgamal_voti.Shared.{
  ℕ, List, [], ◌∷◌, ◌++◌, map, length, Option, none, some, ok, err, Fallible, value_error, ◌>>=◌,
}
use generalised_elgamal_voti.Shared.Bytes.{Bytes, encode as text}
use generalised_elgamal_voti.Params.{to_bytes, u32be, scalar_to_bytes}
use generalised_elgamal_voti.Transcript.{join}
use generalised_elgamal_voti.Envelopes.{
  BallotEnvelope, Ciphertext, Exclusion, AggregateArtifact, ResultArtifact,
}
use generalised_elgamal_voti.Envelopes.Equality.{exclusion_code}
use generalised_elgamal_voti.WriteAuth.Library.{SignatureLibrary}

abbrev pub dkg_result_dst : Bytes
dkg_result_dst = text "SHUTTER-GOVERNANCE-PROTOCOL-DKG-RESULT-v1"

abbrev pub decrypt_share_dst : Bytes
decrypt_share_dst = text "SHUTTER-GOVERNANCE-PROTOCOL-DECRYPT-SHARE-v1"

abbrev pub aggregate_dst : Bytes
aggregate_dst = text "SHUTTER-GOVERNANCE-PROTOCOL-AGGREGATE-v1"

abbrev pub ballot_write_dst : Bytes
ballot_write_dst = text "SHUTTER-GOVERNANCE-PROTOCOL-BALLOT-WRITE-v1"

abbrev pub result_dst : Bytes
result_dst = text "SHUTTER-GOVERNANCE-PROTOCOL-RESULT-v1"

abbrev pub dkg_commitments_dst : Bytes
dkg_commitments_dst = text "SHUTTER-GOVERNANCE-PROTOCOL-DKG-COMMITMENTS-v1"

abbrev pub dkg_share_dst : Bytes
dkg_share_dst = text "SHUTTER-GOVERNANCE-PROTOCOL-DKG-SHARE-v1"

abbrev pub dkg_accuse_dst : Bytes
dkg_accuse_dst = text "SHUTTER-GOVERNANCE-PROTOCOL-DKG-ACCUSE-v1"

abbrev pub dkg_reveal_dst : Bytes
dkg_reveal_dst = text "SHUTTER-GOVERNANCE-PROTOCOL-DKG-REVEAL-v1"

module _ (lib : SignatureLibrary) where
  unfoldable pub dkg_result_digest :
      (election_id pk_election : Bytes) (committee_pks : List Bytes) → Fallible Bytes
  dkg_result_digest election_id pk_election committee_pks = do
    encoded ← lib.abi_bytes_list committee_pks
    ok (lib.keccak (dkg_result_dst ++ (election_id ++ (pk_election ++ encoded))))

  unfoldable pub decryption_share_digest :
      (election_id : Bytes) (shares : List Bytes) (proofs : List (ℕ × ℕ)) → Fallible Bytes
  decryption_share_digest election_id shares proofs = do
    encoded_shares ← lib.abi_bytes_list shares
    encoded_proofs ← lib.abi_proofs proofs
    ok (lib.keccak (decrypt_share_dst ++ (election_id ++ (encoded_shares ++ encoded_proofs))))

  unfoldable pub ballot_digest : (election_id : Bytes) → BallotEnvelope → Bytes
  ballot_digest election_id ballot =
      lib.keccak (ballot_write_dst ++ (election_id ++ lib.ballot_json ballot))

  unfoldable pub result_digest : (election_id : Bytes) → ResultArtifact → Fallible Bytes
  result_digest election_id result = do
    encoded ← lib.abi_result result.totals result.keyper_indices result.bsgs_bound
    ok (lib.keccak (result_dst ++ (election_id ++ encoded)))

  -- `aggregate_digest_of`; the tuple that it builds has the five fields that `assert_aggregate_shape`
  -- asks for.
  unfoldable pub aggregate_digest_of : (election_id : Bytes) → AggregateArtifact → Fallible Bytes
  unfolding exclusion_code
  aggregate_digest_of election_id aggregate = do
    encoded ←
        lib.abi_tally (map (λ (ct : Ciphertext). (ct.c1, ct.c2)) aggregate.aggregates)
          aggregate.admitted
          (map (λ (x : Exclusion). (x.sequence_number, exclusion_code x.reason))
            aggregate.exclusions)
          aggregate.total_admitted_weight aggregate.total_scaled_weight
    ok (lib.keccak (aggregate_dst ++ (election_id ++ encoded)))

  unfoldable pub dkg_commitments_digest :
      (election_id : Bytes) (dealer_index : ℕ) (commitments : List Bytes) → Fallible Bytes
  unfolding join
  dkg_commitments_digest election_id dealer_index commitments = do
    dealer ← to_bytes dealer_index 8
    count ← u32be (length commitments)
    ok (lib.keccak (join (dkg_commitments_dst ∷ election_id ∷ dealer ∷ count ∷ commitments)))

  unfoldable pub dkg_share_digest :
      (election_id : Bytes) (dealer_index recipient_index share : ℕ) → Fallible Bytes
  unfolding join
  dkg_share_digest election_id dealer_index recipient_index share = do
    dealer ← to_bytes dealer_index 8
    recipient ← to_bytes recipient_index 8
    ok (
        lib.keccak
          (join (dkg_share_dst ∷ election_id ∷ dealer ∷ recipient ∷ scalar_to_bytes share ∷ [])))

  unfoldable pub dkg_reveal_digest :
      (election_id : Bytes) (dealer_index recipient_index share : ℕ) → Fallible Bytes
  unfolding join
  dkg_reveal_digest election_id dealer_index recipient_index share = do
    dealer ← to_bytes dealer_index 8
    recipient ← to_bytes recipient_index 8
    ok (
        lib.keccak
          (join (dkg_reveal_dst ∷ election_id ∷ dealer ∷ recipient ∷ scalar_to_bytes share ∷ [])))

  unfoldable pub dkg_accusation_digest :
      (election_id : Bytes) (accused_dealer_index recipient_index : ℕ) → Fallible Bytes
  unfolding join
  dkg_accusation_digest election_id accused_dealer_index recipient_index = do
    dealer ← to_bytes accused_dealer_index 8
    recipient ← to_bytes recipient_index 8
    ok (lib.keccak (join (dkg_accuse_dst ∷ election_id ∷ dealer ∷ recipient ∷ [])))

  unfoldable pub sign_digest : (private_key : ℕ) (digest : Bytes) → Fallible Bytes
  sign_digest private_key digest = do
    key ← to_bytes private_key 32
    ok (lib.sign_message key digest)

  unfoldable pub or_bad_signature : Option Bytes → Fallible Bytes
  or_bad_signature none = err value_error
  or_bad_signature (some address) = ok address

  unfoldable pub recover_digest : (digest signature : Bytes) → Fallible Bytes
  unfolding or_bad_signature
  recover_digest digest signature = or_bad_signature (lib.recover_message digest signature)
