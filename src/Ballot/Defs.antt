-- ===== src/Ballot/Defs.antt =====
-- crypto/ballot.py: building a ballot and checking its proofs and its signature. The random numbers of
-- `build_ballot` are arguments, as in its deterministic calls. `verify_ballot_crypto` is `Fallible`,
-- since the calls outside its `try` blocks may raise.
use generalised_elgamal_voti.Shared.{
  ℕ, suc, ◌+◌, ◌%◌, Bool, true, false, not, ◌&&◌, ◌||◌, List, [], ◌∷◌, length, ltb, leb, ◌==◌,
  if◌then◌else◌, is_yes, ok, err, Fallible, value_error, ◌>>=◌, ◌>>◌, raise_if,
}
use generalised_elgamal_voti.Shared.Bytes.{Bytes, encode as text}
use generalised_elgamal_voti.Params.{curve_order, u16be}
use generalised_elgamal_voti.Points.{
  PointLibrary, mul, add, g1_to_compressed, g1_from_compressed, g2_to_compressed,
  g2_from_compressed,
}
use generalised_elgamal_voti.Elgamal.{Ciphertext, sum_cts}
use generalised_elgamal_voti.Transcript.{Transcript, append}
use generalised_elgamal_voti.Schnorr.{keygen, sign, verify, encode, decode}
use generalised_elgamal_voti.Attestation.{Attestation}
use generalised_elgamal_voti.Proofs.{
  OrBranch, range_from, prove_or, verify_or, prove_budget_exact, verify_budget_exact,
}
use generalised_elgamal_voti.Ballot.Codec.{
  encode_ballot_validity_proof, decode_ballot_validity_proof,
}
use generalised_elgamal_voti.Ballot.Messages.{
  canonical_ballot_message, pre_v1_ballot_message, seed_ballot_transcript,
}

-- What `verify_ballot_crypto` answers: `(True, None)`, or `False` with a reason.
pub data BallotVerdict : Type 0 where
  verified malformed_ballot bad_proof bad_signature bad_signature_pre_v2 : BallotVerdict

pub record BuiltBallot : Type 0 where
  pub election_id : Bytes
  pub pseudonym : Bytes
  pub vk : Bytes
  pub ciphertexts : List (Bytes × Bytes)
  pub zk_proof : Bytes
  pub voter_signature : Bytes
  pub canonical_preimage : Bytes

-- The random numbers of a range proof: `range_proof_w[j]` and `range_proof_sims[j]`.
pub record RangeNonces : Type 0 where
  pub w : ℕ
  pub sims : List (ℕ × ℕ)

-- `v > budget`, for some vote
unfoldable pub vote_out_of_range : (budget : ℕ) → List ℕ → Bool
vote_out_of_range budget [] = false
vote_out_of_range budget (v ∷ votes) = ltb budget v || vote_out_of_range budget votes

unfoldable pub sum_of : List ℕ → ℕ
sum_of [] = 0
sum_of (n ∷ ns) = n + sum_of ns

-- `try: ... except Exception: return False, "MALFORMED"`
unfoldable pub or_malformed :
    {A : Type 0} → Fallible A → (A → Fallible BallotVerdict) → Fallible BallotVerdict
or_malformed (ok a) k = k a
or_malformed (err _) k = ok malformed_ballot

module _ (G2 : PointLibrary) where
  -- `rs_used`, and the first loop of `build_ballot`
  unfoldable pub reduce_all : List ℕ → List ℕ
  reduce_all [] = []
  reduce_all (r ∷ rs) = r % curve_order ∷ reduce_all rs

  unfoldable pub encrypt_votes : (mpk : G2.Point) (votes rs : List ℕ) → List (Ciphertext G2)
  encrypt_votes mpk (v ∷ votes) (r ∷ rs) =
      (mul G2 G2.generator r, add G2 (mul G2 mpk r) (mul G2 G2.generator v))
      ∷ encrypt_votes mpk votes rs
  encrypt_votes mpk [] rs = []
  encrypt_votes mpk (v ∷ votes) [] = []

  unfoldable pub compress_all : List (Ciphertext G2) → Fallible (List (Bytes × Bytes))
  compress_all [] = ok []
  compress_all ((c1, c2) ∷ cts) = do
    b1 ← g2_to_compressed G2 c1
    b2 ← g2_to_compressed G2 c2
    rest ← compress_all cts
    ok ((b1, b2) ∷ rest)

  unfoldable pub decompress_all : List (Bytes × Bytes) → Fallible (List (Ciphertext G2))
  decompress_all [] = ok []
  decompress_all ((b1, b2) ∷ cts) = do
    c1 ← g2_from_compressed G2 b1
    c2 ← g2_from_compressed G2 b2
    rest ← decompress_all cts
    ok ((c1, c2) ∷ rest)

module _ (keccak : Bytes → Bytes) (G2 : PointLibrary) where
  -- The loop over the candidates, from the index `j`.
  unfoldable pub prove_ranges :
      (mpk : G2.Point) (candidates : List ℕ) (j : ℕ) (cts : List (Ciphertext G2))
      (rs votes : List ℕ)
      → List RangeNonces
      → Transcript
      → Fallible (List (List (OrBranch G2)) × Transcript)
  prove_ranges mpk candidates j (ct ∷ cts) (r ∷ rs) (v ∷ votes) (n ∷ nonces) t = do
    index ← u16be j
    t1 ← append t (text "ballot:range") index
    (proof, t2) ← prove_or G2 keccak ct.0 ct.1 mpk candidates r v t1 n.w n.sims
    (proofs, t3) ← prove_ranges mpk candidates (suc j) cts rs votes nonces t2
    ok (proof ∷ proofs, t3)
  prove_ranges mpk candidates j _ _ _ _ t = ok ([], t)

  -- The same loop of the verifier: it stops at the first proof that fails.
  unfoldable pub verify_ranges :
      (mpk : G2.Point) (candidates : List ℕ) (j : ℕ)
      → List (Ciphertext G2)
      → List (List (OrBranch G2))
      → Transcript
      → Fallible (Bool × Transcript)
  verify_ranges mpk candidates j (ct ∷ cts) (proof ∷ proofs) t = do
    index ← u16be j
    t1 ← append t (text "ballot:range") index
    (good, t2) ← verify_or G2 keccak ct.0 ct.1 mpk candidates proof t1
    if good then verify_ranges mpk candidates (suc j) cts proofs t2 else ok (false, t2)
  verify_ranges mpk candidates j _ _ t = ok (true, t)

module _ (keccak : Bytes → Bytes) (G1 G2 : PointLibrary) where
  unfoldable pub build_ballot :
      (mpk : G2.Point) (election_id pseudonym : Bytes) (sk : ℕ) (vk : G1.Point)
      → Attestation
      → (votes : List ℕ) (num_candidates budget : ℕ) (rs : List ℕ) → List RangeNonces
      → (budget_proof_w schnorr_k : ℕ) → Fallible BuiltBallot
  unfolding vote_out_of_range sum_of reduce_all encrypt_votes prove_ranges compress_all
  build_ballot mpk election_id pseudonym sk vk attestation votes num_candidates budget rs nonces
        budget_proof_w schnorr_k =
      do
        raise_if (not (length votes == num_candidates)) value_error
        raise_if (vote_out_of_range budget votes) value_error
        raise_if (not (sum_of votes == budget)) value_error
        (_, expected) ← keygen keccak G1 sk
        raise_if (not (is_yes (G1.equal expected vk))) value_error
        let rs_used = reduce_all G2 rs
        let cts = encrypt_votes G2 mpk votes rs_used
        t ← seed_ballot_transcript G1 G2 election_id mpk vk cts num_candidates budget
        (range_proofs, t1) ←
            prove_ranges keccak G2 mpk (range_from 0 (budget + 1)) 0 cts rs_used votes nonces t
        let (c1_sum, c2_sum) = sum_cts G2 cts
        t2 ← append t1 (text "ballot:budget") (0 ∷ [])
        (e_b, z_b) ←
            prove_budget_exact keccak G2 c1_sum c2_sum mpk budget (sum_of rs_used % curve_order) t2
              budget_proof_w
        zk_proof ← encode_ballot_validity_proof G2 range_proofs e_b z_b
        ct_bytes ← compress_all G2 cts
        preimage ← canonical_ballot_message election_id pseudonym ct_bytes zk_proof attestation
        (R, s) ← sign keccak G1 sk vk (keccak preimage) schnorr_k
        vk_bytes ← g1_to_compressed G1 vk
        signature ← encode keccak G1 R s
        ok (record {
          election_id = election_id;
          pseudonym = pseudonym;
          vk = vk_bytes;
          ciphertexts = ct_bytes;
          zk_proof = zk_proof;
          voter_signature = signature;
          canonical_preimage = preimage;
        })

  -- The end of `verify_ballot_crypto`: the signature.
  unfoldable pub verify_voter_signature :
      (election_id pseudonym : Bytes) (vk : G1.Point) (ciphertexts : List (Bytes × Bytes))
      (zk_proof voter_signature : Bytes)
      → Attestation
      → Fallible BallotVerdict
  unfolding or_malformed
  verify_voter_signature election_id pseudonym vk ciphertexts zk_proof voter_signature attestation =
      or_malformed (decode keccak G1 voter_signature) λ sig. do
        preimage ← canonical_ballot_message election_id pseudonym ciphertexts zk_proof attestation
        good ← verify keccak G1 vk (keccak preimage) sig.0 sig.1
        if good then ok verified else do
          old ← pre_v1_ballot_message election_id pseudonym ciphertexts zk_proof
          old_good ← verify keccak G1 vk (keccak old) sig.0 sig.1
          ok (if old_good then bad_signature_pre_v2 else bad_signature)

  -- The part between the decoding and the signature: the range proofs and the budget proof.
  unfoldable pub verify_ballot_proofs :
      (mpk : G2.Point) (election_id : Bytes) (vk : G1.Point) (cts : List (Ciphertext G2))
      → List (List (OrBranch G2))
      → (e_b z_b num_candidates budget : ℕ) → Fallible Bool
  unfolding verify_ranges
  verify_ballot_proofs mpk election_id vk cts range_proofs e_b z_b num_candidates budget = do
    t ← seed_ballot_transcript G1 G2 election_id mpk vk cts num_candidates budget
    (ranges_good, t1) ← verify_ranges keccak G2 mpk (range_from 0 (budget + 1)) 0 cts range_proofs t
    if not ranges_good then ok false else do
      let (c1_sum, c2_sum) = sum_cts G2 cts
      t2 ← append t1 (text "ballot:budget") (0 ∷ [])
      verify_budget_exact keccak G2 c1_sum c2_sum mpk budget e_b z_b t2

  unfoldable pub verify_ballot_crypto :
      (mpk : G2.Point) (election_id pseudonym vk_bytes : Bytes) (ciphertexts : List (Bytes × Bytes))
      (zk_proof voter_signature : Bytes)
      → Attestation
      → (num_candidates budget : ℕ) → Fallible BallotVerdict
  unfolding or_malformed decompress_all verify_ballot_proofs verify_voter_signature
  verify_ballot_crypto mpk election_id pseudonym vk_bytes ciphertexts zk_proof voter_signature
        attestation num_candidates budget =
      if not (leb 1 num_candidates && leb num_candidates 65535)
      then ok malformed_ballot
      else if not (leb 1 budget && leb budget 65534)
      then ok malformed_ballot
      else if not (length election_id == 32) || not (length pseudonym == 32)
      then ok malformed_ballot
      else if is_yes (G2.equal mpk G2.identity)
      then ok malformed_ballot
      else or_malformed (g1_from_compressed G1 vk_bytes) λ vk.
        if is_yes (G1.equal vk G1.identity)
        then ok malformed_ballot
        else if not (length ciphertexts == num_candidates)
        then ok malformed_ballot
        else or_malformed (decompress_all G2 ciphertexts) λ cts.
          or_malformed (decode_ballot_validity_proof G2 zk_proof num_candidates budget) λ decoded.
            do
              good ←
                  verify_ballot_proofs mpk election_id vk cts decoded.0 decoded.1 decoded.2
                    num_candidates budget
              if not good
                  then ok bad_proof
                  else verify_voter_signature election_id pseudonym vk ciphertexts zk_proof
                      voter_signature attestation
