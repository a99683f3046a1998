-- ===== src/Ballot/Building.antt =====
-- crypto/ballot.py: what `build_ballot` makes of votes that spend the budget.
use generalised_elgamal_voti.Shared.{
  ℕ, ◌+◌, ◌*◌, ◌%◌, ◌^◌, ◌<◌, ◌≤◌, ◌≡◌, ◌≢◌, refl, sym, ap, ◌∙◌, arith, true, false, List, [], ◌∷◌,
  length, leb, ◌==◌, ==_iff, holds→is_yes, refuted→is_yes, ok,
}
use generalised_elgamal_voti.Shared.Bytes.{Bytes, encode as text}
use generalised_elgamal_voti.Params.{curve_order}
use generalised_elgamal_voti.Points.{
  PointLibrary, IsPrimeOrderGroup, HasCodec, mul, g1_to_compressed, g1_from_compressed,
}
use generalised_elgamal_voti.Points.Codec.{to_compressed-ok, from_compressed-bytes}
use generalised_elgamal_voti.Elgamal.{Ciphertext, sum_cts}
use generalised_elgamal_voti.Elgamal.Homomorphism.{Encrypts}
use generalised_elgamal_voti.Transcript.{Transcript, append}
use generalised_elgamal_voti.Transcript.Totality.{append-ok}
use generalised_elgamal_voti.Schnorr.Correctness.{response, sign-ok, encode-ok}
use generalised_elgamal_voti.Attestation.{Attestation}
use generalised_elgamal_voti.Proofs.{OrBranch, range_from, prove_budget_exact, verify_budget_exact}
use generalised_elgamal_voti.Proofs.Budget.{prove_budget_exact-verify_reduced}
use generalised_elgamal_voti.Ballot.Defs.{
  BuiltBallot, RangeNonces, sum_of, reduce_all, encrypt_votes, prove_ranges, verify_ranges,
  build_ballot, verify_voter_signature, verify_ballot_proofs, verify_ballot_crypto, or_malformed,
}
use generalised_elgamal_voti.Ballot.Codec.{decode_ballot_validity_proof}
use generalised_elgamal_voti.Ballot.Messages.{bad_ciphertext, canonical_ballot_message}
use generalised_elgamal_voti.Ballot.Reading.{AreProofs}
use generalised_elgamal_voti.Ballot.RoundTrip.{
  wire_bytes, length-wire_bytes, encode-wire_bytes, decode-wire_bytes,
}
use generalised_elgamal_voti.Ballot.Ranges.{
  InRange, vote_out_of_range-InRange, HasSims, length-reduce_all, length-encrypt_votes,
  prove_ranges-verify_ranges, sum_cts-encrypt_votes,
}
use generalised_elgamal_voti.Ballot.Honest.{
  compressed, length-compressed, compress_all-ok, decompress_all-compressed, compressed-sizes,
  canonical_ballot_message-ok, seed_ballot_transcript-ok,
}
use generalised_elgamal_voti.Ballot.Signed.{keygen-ok, signature_bytes}

sum_of-InRange : (budget : ℕ) (votes : List ℕ) → sum_of votes ≤ budget → InRange budget votes
unfolding sum_of
sum_of-InRange budget [] h = tt
sum_of-InRange budget (v ∷ votes) h = (omega arith, sum_of-InRange budget votes (omega arith))

module _ (keccak : Bytes → Bytes) (G1 G2 : PointLibrary) (laws1 : IsPrimeOrderGroup G1)
    (laws2 : IsPrimeOrderGroup G2) (codec1 : HasCodec G1 48) (codec2 : HasCodec G2 96)
    (mpk : G2.Point) (votes : List ℕ) (budget : ℕ) (rs : List ℕ) (nonces : List RangeNonces)
    (enough : length rs ≡ length votes) (each : length nonces ≡ length votes)
    (sims : HasSims (budget + 1) nonces) (spent : sum_of votes ≡ budget)
    (few : length votes ≤ 65535) (small : budget ≤ 65534) where
  cts : List (Ciphertext G2)
  cts = encrypt_votes G2 mpk votes (reduce_all G2 rs)

  -- The verifier's transcript goes through the prover's states, from any start.
  proofs-verify :
      (t : Transcript) (w : ℕ)
      → (ps : List (List (OrBranch G2))) × (t1 : Transcript) × (t2 : Transcript) × (e : ℕ) × (z : ℕ)
        × (prove_ranges keccak G2 mpk
              (range_from 0 (budget + 1))
              0
              cts
              (reduce_all G2 rs)
              votes
              nonces
              t
            ≡ ok (ps, t1))
        × (verify_ranges keccak G2 mpk (range_from 0 (budget + 1)) 0 cts ps t ≡ ok (true, t1))
        × (length ps ≡ length votes)
        × AreProofs G2 codec2 (budget + 1) ps
        × (append t1 (text "ballot:budget") (0 ∷ []) ≡ ok t2)
        × (prove_budget_exact keccak G2
              (sum_cts G2 cts).0
              (sum_cts G2 cts).1
              mpk
              budget
              (sum_of (reduce_all G2 rs) % curve_order)
              t2
              w
            ≡ ok (e, z))
        × (verify_budget_exact keccak G2 (sum_cts G2 cts).0 (sum_cts G2 cts).1 mpk budget e z t2
            ≡ ok true)
        × (e < curve_order)
        × (z < curve_order)
  unfolding cts
  proofs-verify t w =
      let long : length (reduce_all G2 rs) ≡ length votes = length-reduce_all G2 rs ∙ enough in
      let (ps, t1, proved, full, shaped, checked) =
        prove_ranges-verify_ranges keccak G2 laws2 codec2 mpk budget (omega arith) 0 votes
          (reduce_all G2 rs) nonces t long each sims (sum_of-InRange budget votes (omega arith))
          (omega arith) in
      let (t2, appended) =
        append-ok t1 (text "ballot:budget") (0 ∷ []) (omega arith) (omega arith) in
      let (h, r) = sum_cts-encrypt_votes keccak G2 laws2 codec2 mpk votes (reduce_all G2 rs) long in
      let encrypts : Encrypts G2 mpk budget
          (sum_cts G2 (encrypt_votes G2 mpk votes (reduce_all G2 rs))) =
        record {
          randomness = sum_of (reduce_all G2 rs) % curve_order;
          first = h.first ∙ ap (mul G2 G2.generator) r;
          second = h.second ∙ rw (r, spent);
        } in
      let (e, z, p, v, e_small, z_small) =
        prove_budget_exact-verify_reduced keccak G2 laws2 codec2 mpk budget _ encrypts t2 w in
      (ps, t1, t2, e, z, proved, checked, full, shaped, appended, p, v, e_small, z_small)

  -- An honest ballot is made without an error, and its check comes down to that of its signature, with
  -- any credential.
  pub build_ballot-honest :
      (election_id pseudonym : Bytes) (sk : ℕ) (att : Attestation) (budget_proof_w schnorr_k : ℕ)
      → mpk ≢ G2.identity
      → mul G1 G1.generator sk ≢ G1.identity
      → length election_id ≡ 32
      → length pseudonym ≡ 32
      → length att.pseudonym ≡ 32
      → length att.vk ≡ 48
      → att.weight < 256 ^ 32
      → att.nonce < 256 ^ 32
      → length att.signature < 65536
      → 1 ≤ length votes
      → 1 ≤ budget
      → length votes * ((budget + 1) * 256) < 4294000000
      → (b : BuiltBallot) × (m : Bytes) × (build_ballot keccak G1 G2 mpk election_id pseudonym sk
            (mul G1 G1.generator sk)
            att
            votes
            (length votes)
            budget
            rs
            nonces
            budget_proof_w
            schnorr_k
          ≡ ok b)
        × (canonical_ballot_message election_id pseudonym b.ciphertexts b.zk_proof att ≡ ok m)
        × (b.voter_signature ≡ signature_bytes keccak G1 laws1 codec1 sk (keccak m) schnorr_k)
        × ((other : Attestation)
            → verify_ballot_crypto keccak G1 G2 mpk b.election_id b.pseudonym b.vk b.ciphertexts
                b.zk_proof b.voter_signature other
                (length votes)
                budget
              ≡ verify_voter_signature keccak G1 G2 election_id pseudonym
                  (mul G1 G1.generator sk)
                  b.ciphertexts
                  b.zk_proof
                  b.voter_signature
                  other)
        × (bad_ciphertext b.ciphertexts ≡ false)
        × (length b.ciphertexts ≡ length votes)
        × (length b.zk_proof < 4294967296)
        × (b.election_id ≡ election_id)
        × (b.pseudonym ≡ pseudonym)
        × (b.vk ≡ G1.to_compressed_bytes (mul G1 G1.generator sk))
  unfolding build_ballot verify_ballot_crypto verify_ballot_proofs or_malformed g1_to_compressed
      g1_from_compressed cts signature_bytes
  build_ballot-honest election_id pseudonym sk att budget_proof_w schnorr_k key voter id_size
        pseudonym_size att_pseudonym att_vk weight nonce signature some_vote some_budget short =
      let vk = mul G1 G1.generator sk in
      let count : length cts ≡ length votes =
        length-encrypt_votes G2 mpk votes (reduce_all G2 rs) (length-reduce_all G2 rs ∙ enough) in
      let (t, seeded) =
        seed_ballot_transcript-ok G1 G2 codec1 codec2 election_id mpk vk cts (length votes) budget
          id_size (omega arith) (omega arith) (omega arith) in
      let (ps, t1, t2, e, z, proved, checked, full, shaped, appended, p, v, e_small, z_small) =
        proofs-verify t budget_proof_w in
      let zk_proof = wire_bytes G2 codec2 (budget + 1) ps e z in
      let encoded =
        encode-wire_bytes G2 codec2 (budget + 1) ps e z shaped (omega arith) (omega arith)
          (omega arith) in
      let decoded : decode_ballot_validity_proof G2 zk_proof (length votes) budget ≡ ok (ps, e, z) =
        ap (λ (n : ℕ). decode_ballot_validity_proof G2 zk_proof n budget) (sym full)
        ∙ decode-wire_bytes G2 codec2 budget ps e z shaped (omega arith) (omega arith) e_small
            z_small in
      let size : length ps * ((budget + 1) * 256) ≡ length votes * ((budget + 1) * 256) =
        ap (λ (n : ℕ). n * ((budget + 1) * 256)) full in
      let proof_size : length zk_proof < 4294967296 =
        omega (arith, length-wire_bytes G2 codec2 (budget + 1) ps e z shaped) in
      let wire = compressed G2 codec2 cts in
      let wire_count : length wire ≡ length votes = length-compressed G2 codec2 cts ∙ count in
      let (m, message) =
        canonical_ballot_message-ok election_id pseudonym wire zk_proof att id_size pseudonym_size
          (compressed-sizes G2 codec2 cts) (omega arith) proof_size att_pseudonym att_vk weight
          nonce signature in
      let same_count : (length votes == length votes) ≡ true = (==_iff _ _).1 refl in
      let wire_matches : (length wire == length votes) ≡ true = (==_iff _ _).1 wire_count in
      let g1 : leb 1 (length votes) ≡ true = ground arith in
      let g2 : leb (length votes) 65535 ≡ true = ground arith in
      let g3 : leb 1 budget ≡ true = ground arith in
      let g4 : leb budget 65534 ≡ true = ground arith in
      let exact : (sum_of votes == budget) ≡ true = (==_iff _ _).1 spent in
      (
        record {
          election_id = election_id;
          pseudonym = pseudonym;
          vk = G1.to_compressed_bytes vk;
          ciphertexts = wire;
          zk_proof = zk_proof;
          voter_signature = signature_bytes keccak G1 laws1 codec1 sk (keccak m) schnorr_k;
          canonical_preimage = m;
        },
        m,
        rw (
          same_count,
          vote_out_of_range-InRange budget votes (sum_of-InRange budget votes (omega arith)),
          exact,
          keygen-ok keccak G1 laws1 codec1 sk voter,
          holds→is_yes (G1.equal vk vk) refl,
          seeded,
          proved,
          appended,
          p,
          encoded,
          compress_all-ok G2 codec2 cts,
          message,
          sign-ok keccak G1 laws1 codec1 sk vk (keccak m) schnorr_k,
          to_compressed-ok G1 48 codec1 vk,
          encode-ok keccak G1 laws1 codec1 (mul G1 G1.generator (schnorr_k % curve_order))
              (response keccak G1 sk vk (keccak m) schnorr_k),
        ),
        message,
        refl,
        λ other. rw (
          g1,
          g2,
          g3,
          g4,
          (==_iff _ _).1 id_size,
          (==_iff _ _).1 pseudonym_size,
          refuted→is_yes (G2.equal mpk G2.identity) key,
          from_compressed-bytes G1 48 codec1 vk,
          refuted→is_yes (G1.equal vk G1.identity) voter,
          wire_matches,
          decompress_all-compressed G2 codec2 cts,
          decoded,
          seeded,
          checked,
          appended,
          v,
        ),
        compressed-sizes G2 codec2 cts,
        wire_count,
        proof_size,
        refl,
        refl,
        refl,
      )
