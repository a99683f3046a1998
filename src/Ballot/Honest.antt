-- ===== src/Ballot/Honest.antt =====
-- crypto/ballot.py: the parts of an honest ballot are made without an error.
use generalised_elgamal_voti.Shared.{
  ℕ, suc, ◌+◌, ◌^◌, ◌<◌, ◌≤◌, ◌≡◌, refl, ap, arith, true, false, List, [], ◌∷◌, length, ltb, ◌==◌,
  ==_iff, ok, err, overflow_error,
}
use generalised_elgamal_voti.Shared.Bytes.{Bytes, encode as text, big_endian, length-big_endian}
use generalised_elgamal_voti.Params.{to_bytes}
use generalised_elgamal_voti.Points.{
  PointLibrary, HasCodec, g1_to_compressed, g2_to_compressed, g2_from_compressed,
}
use generalised_elgamal_voti.Points.Codec.{to_compressed-ok, from_compressed-bytes}
use generalised_elgamal_voti.Elgamal.{Ciphertext}
use generalised_elgamal_voti.Transcript.{Transcript, new_transcript}
use generalised_elgamal_voti.Transcript.Totality.{u32be-ok, append-ok, append_point-ok}
use generalised_elgamal_voti.Attestation.{Attestation}
use generalised_elgamal_voti.Proofs.{indexed}
use generalised_elgamal_voti.Proofs.Completeness.{length-indexed}
use generalised_elgamal_voti.Ballot.Messages.{
  ballot_proof_transcript_label, bad_ciphertext, canonical_ballot_message, append_ciphertexts,
  seed_ballot_transcript,
}
use generalised_elgamal_voti.Ballot.Defs.{compress_all, decompress_all}
use generalised_elgamal_voti.Ballot.Reading.{u16be-ok}

to_bytes-ok : (n k : ℕ) → n < 256 ^ k → to_bytes n k ≡ ok (big_endian k n)
unfolding to_bytes
to_bytes-ok n k h = let small : ltb n (256 ^ k) ≡ true = ground arith in rw small

length_is : (bs : Bytes) (n : ℕ) → length bs ≡ n → (length bs == n) ≡ true
length_is bs n h = (==_iff (length bs) n).1 h

module _ (L : PointLibrary) (codec : HasCodec L 96) where
  pub compressed : List (Ciphertext L) → List (Bytes × Bytes)
  compressed [] = []
  compressed ((c1, c2) ∷ cts) =
      (L.to_compressed_bytes c1, L.to_compressed_bytes c2) ∷ compressed cts

  pub length-compressed : (cts : List (Ciphertext L)) → length (compressed cts) ≡ length cts
  unfolding compressed
  length-compressed [] = refl
  length-compressed (ct ∷ cts) = ap suc (length-compressed cts)

  pub compress_all-ok : (cts : List (Ciphertext L)) → compress_all L cts ≡ ok (compressed cts)
  unfolding compress_all compressed g2_to_compressed
  compress_all-ok [] = refl
  compress_all-ok ((c1, c2) ∷ cts) =
      rw (to_compressed-ok L 96 codec c1, to_compressed-ok L 96 codec c2, compress_all-ok cts)

  pub decompress_all-compressed :
      (cts : List (Ciphertext L)) → decompress_all L (compressed cts) ≡ ok cts
  unfolding decompress_all compressed g2_from_compressed
  decompress_all-compressed [] = refl
  decompress_all-compressed ((c1, c2) ∷ cts) = rw (
    from_compressed-bytes L 96 codec c1,
    from_compressed-bytes L 96 codec c2,
    decompress_all-compressed cts,
  )

  pub compressed-sizes : (cts : List (Ciphertext L)) → bad_ciphertext (compressed cts) ≡ false
  unfolding bad_ciphertext compressed
  compressed-sizes [] = refl
  compressed-sizes ((c1, c2) ∷ cts) =
      rw
        (
          length_is (L.to_compressed_bytes c1) 96 (codec.encoded_length c1),
          length_is (L.to_compressed_bytes c2) 96 (codec.encoded_length c2),
        )
        (compressed-sizes cts)

-- The message of a ballot of the right sizes.
pub canonical_ballot_message-ok :
    (election_id pseudonym : Bytes) (cts : List (Bytes × Bytes)) (zk_proof : Bytes)
    (att : Attestation)
    → length election_id ≡ 32
    → length pseudonym ≡ 32
    → bad_ciphertext cts ≡ false
    → length cts < 65536
    → length zk_proof < 4294967296
    → length att.pseudonym ≡ 32
    → length att.vk ≡ 48
    → att.weight < 256 ^ 32
    → att.nonce < 256 ^ 32
    → length att.signature < 65536
    → (m : Bytes) × (canonical_ballot_message election_id pseudonym cts zk_proof att ≡ ok m)
unfolding canonical_ballot_message
canonical_ballot_message-ok election_id pseudonym cts zk_proof att h1 h2 h3 h4 h5 h6 h7 h8 h9 h10 =
    let short : ltb 65535 (length att.signature) ≡ false = ground arith in
    rw
      (
        length_is election_id 32 h1,
        length_is pseudonym 32 h2,
        h3,
        length_is att.pseudonym 32 h6,
        length_is att.vk 48 h7,
        u16be-ok (length cts) h4,
        u32be-ok (length zk_proof) h5,
        to_bytes-ok att.weight 32 h8,
        to_bytes-ok att.nonce 32 h9,
        short,
        u16be-ok (length att.signature) h10,
      )
      (_, refl)

-- A weight that does not fit its 32 bytes.
pub canonical_ballot_message-overflow :
    (election_id pseudonym : Bytes) (cts : List (Bytes × Bytes)) (zk_proof : Bytes)
    (att : Attestation)
    → length election_id ≡ 32
    → length pseudonym ≡ 32
    → bad_ciphertext cts ≡ false
    → length cts < 65536
    → length zk_proof < 4294967296
    → length att.pseudonym ≡ 32
    → length att.vk ≡ 48
    → 256 ^ 32 ≤ att.weight
    → canonical_ballot_message election_id pseudonym cts zk_proof att ≡ err overflow_error
unfolding canonical_ballot_message to_bytes
canonical_ballot_message-overflow election_id pseudonym cts zk_proof att h1 h2 h3 h4 h5 h6 h7 h8 =
    let large : ltb att.weight (256 ^ 32) ≡ false = ground arith in
    rw (
      length_is election_id 32 h1,
      length_is pseudonym 32 h2,
      h3,
      length_is att.pseudonym 32 h6,
      length_is att.vk 48 h7,
      u16be-ok (length cts) h4,
      u32be-ok (length zk_proof) h5,
      large,
    )

module _ (G1 G2 : PointLibrary) (codec1 : HasCodec G1 48) (codec2 : HasCodec G2 96) where
  append_ciphertexts-ok :
      (t : Transcript) (i : ℕ) (cts : List (Ciphertext G2))
      → i + length cts < 4000000000
      → (u : Transcript) × (append_ciphertexts G1 G2 t i cts ≡ ok u)
  unfolding append_ciphertexts
  append_ciphertexts-ok t i [] h = (t, refl)
  append_ciphertexts-ok t i ((c1, c2) ∷ cts) h =
      let (t1, q1) =
        append_point-ok G2 codec2 t (indexed (text "ct.c1") i) c1
          (length-indexed (text "ct.c1") i (omega arith) (omega arith)) in
      let (t2, q2) =
        append_point-ok G2 codec2 t1 (indexed (text "ct.c2") i) c2
          (length-indexed (text "ct.c2") i (omega arith) (omega arith)) in
      let (u, q) = append_ciphertexts-ok t2 (suc i) cts (omega arith) in (u, rw (q1, q2, q))

  pub seed_ballot_transcript-ok :
      (election_id : Bytes) (mpk : G2.Point) (vk : G1.Point) (cts : List (Ciphertext G2)) (n B : ℕ)
      → length election_id ≡ 32
      → n < 65536
      → B < 65536
      → length cts < 65536
      → (t : Transcript) × (seed_ballot_transcript G1 G2 election_id mpk vk cts n B ≡ ok t)
  unfolding seed_ballot_transcript g1_to_compressed
  seed_ballot_transcript-ok election_id mpk vk cts n B id_size few small short =
      let (t1, q1) =
        append-ok (new_transcript ballot_proof_transcript_label) (text "electionId") election_id
          (omega arith) (omega arith) in
      let (t2, q2) = append_point-ok G2 codec2 t1 (text "mpk") mpk (omega arith) in
      let (t3, q3) =
        append-ok t2 (text "vk") (G1.to_compressed_bytes vk) (omega arith)
          (omega (arith, codec1.encoded_length vk)) in
      let (t4, q4) = append-ok t3 (text "variant") (65 ∷ []) (omega arith) (omega arith) in
      let (t5, q5) = append-ok t4 (text "mode") (0 ∷ []) (omega arith) (omega arith) in
      let (t6, q6) =
        append-ok t5 (text "numCandidates") (big_endian 2 n) (omega arith)
          (omega (arith, length-big_endian 2 n)) in
      let (t7, q7) =
        append-ok t6 (text "budget") (big_endian 2 B) (omega arith)
          (omega (arith, length-big_endian 2 B)) in
      let (t8, q8) =
        append-ok t7 (text "|cts|") (big_endian 2 (length cts)) (omega arith)
          (omega (arith, length-big_endian 2 (length cts))) in
      let (t9, q9) = append_ciphertexts-ok t8 0 cts (omega arith) in
      (
        t9,
        rw (
          q1,
          q2,
          to_compressed-ok G1 48 codec1 vk,
          q3,
          q4,
          q5,
          u16be-ok n few,
          q6,
          u16be-ok B small,
          q7,
          u16be-ok (length cts) short,
          q8,
          q9,
        ),
      )
