-- ===== src/Ballot/Messages.antt =====
-- crypto/ballot.py: the message that the voter signs, and the seed of the ballot's transcript.
use generalised_elgamal_voti.Shared.{
  ℕ, suc, Bool, false, not, ◌||◌, List, [], ◌∷◌, ◌++◌, length, ltb, ◌==◌, ok, Fallible, value_error,
  ◌>>=◌, ◌>>◌, raise_if,
}
use generalised_elgamal_voti.Shared.Bytes.{Bytes, encode as text}
use generalised_elgamal_voti.Params.{to_bytes, u16be, u32be}
use generalised_elgamal_voti.Points.{PointLibrary, g1_to_compressed}
use generalised_elgamal_voti.Transcript.{Transcript, new_transcript, append, append_point}
use generalised_elgamal_voti.Elgamal.{Ciphertext}
use generalised_elgamal_voti.Attestation.{Attestation}
use generalised_elgamal_voti.Proofs.{indexed}

abbrev pub ballot_message_label : Bytes
ballot_message_label = text "SHUTTER-VOTE-BALLOT-v2"

abbrev pub ballot_proof_transcript_label : Bytes
ballot_proof_transcript_label = text "SHUTTER-VOTE-BALLOT-PROOF-v1"

-- `len(c1) != 96 or len(c2) != 96`, for some ciphertext
unfoldable pub bad_ciphertext : List (Bytes × Bytes) → Bool
bad_ciphertext [] = false
bad_ciphertext ((c1, c2) ∷ cts) =
    (not (length c1 == 96) || not (length c2 == 96)) || bad_ciphertext cts

unfoldable pub join_ciphertexts : List (Bytes × Bytes) → Bytes
join_ciphertexts [] = []
join_ciphertexts ((c1, c2) ∷ cts) = c1 ++ (c2 ++ join_ciphertexts cts)

unfoldable pub canonical_ballot_message :
    (election_id pseudonym : Bytes) (ciphertexts : List (Bytes × Bytes)) (zk_proof : Bytes)
    → Attestation
    → Fallible Bytes
unfolding bad_ciphertext join_ciphertexts
canonical_ballot_message election_id pseudonym ciphertexts zk_proof attestation = do
  raise_if (not (length election_id == 32)) value_error
  raise_if (not (length pseudonym == 32)) value_error
  raise_if (bad_ciphertext ciphertexts) value_error
  raise_if (not (length attestation.pseudonym == 32)) value_error
  raise_if (not (length attestation.vk == 48)) value_error
  count ← u16be (length ciphertexts)
  proof_length ← u32be (length zk_proof)
  weight ← to_bytes attestation.weight 32
  nonce ← to_bytes attestation.nonce 32
  let sig = attestation.signature
  raise_if (ltb 65535 (length sig)) value_error
  sig_length ← u16be (length sig)
  ok (
      ballot_message_label
      ++ (election_id
          ++ (pseudonym
              ++ (count
                  ++ (join_ciphertexts ciphertexts
                      ++ (proof_length
                          ++ (zk_proof
                              ++ (attestation.pseudonym
                                  ++ (attestation.vk
                                      ++ (weight ++ (nonce ++ (sig_length ++ sig))))))))))))

-- `_pre_v1_ballot_message`
unfoldable pub pre_v1_ballot_message :
    (election_id pseudonym : Bytes) (ciphertexts : List (Bytes × Bytes)) (zk_proof : Bytes)
    → Fallible Bytes
unfolding join_ciphertexts
pre_v1_ballot_message election_id pseudonym ciphertexts zk_proof = do
  count ← u16be (length ciphertexts)
  proof_length ← u32be (length zk_proof)
  ok (
      text "SHUTTER-VOTE-BALLOT-v1"
      ++ (election_id
          ++ (pseudonym
              ++ (count ++ (join_ciphertexts ciphertexts ++ (proof_length ++ zk_proof))))))

module _ (G1 G2 : PointLibrary) where
  -- The loop of `seed_ballot_transcript`, from the index `i`.
  unfoldable pub append_ciphertexts : Transcript → ℕ → List (Ciphertext G2) → Fallible Transcript
  unfolding indexed
  append_ciphertexts t i [] = ok t
  append_ciphertexts t i ((c1, c2) ∷ cts) = do
    t1 ← append_point G2 t (indexed (text "ct.c1") i) c1
    t2 ← append_point G2 t1 (indexed (text "ct.c2") i) c2
    append_ciphertexts t2 (suc i) cts

  unfoldable pub seed_ballot_transcript :
      (election_id : Bytes) (mpk : G2.Point) (vk : G1.Point) (cts : List (Ciphertext G2))
      (num_candidates budget : ℕ)
      → Fallible Transcript
  unfolding append_ciphertexts
  seed_ballot_transcript election_id mpk vk cts num_candidates budget = do
    t1 ← append (new_transcript ballot_proof_transcript_label) (text "electionId") election_id
    t2 ← append_point G2 t1 (text "mpk") mpk
    vk_bytes ← g1_to_compressed G1 vk
    t3 ← append t2 (text "vk") vk_bytes
    t4 ← append t3 (text "variant") (65 ∷ [])
    t5 ← append t4 (text "mode") (0 ∷ [])
    candidates ← u16be num_candidates
    t6 ← append t5 (text "numCandidates") candidates
    budget_bytes ← u16be budget
    t7 ← append t6 (text "budget") budget_bytes
    count ← u16be (length cts)
    t8 ← append t7 (text "|cts|") count
    append_ciphertexts t8 0 cts
