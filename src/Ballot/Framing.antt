-- ===== src/Ballot/Framing.antt =====
-- crypto/ballot.py: what the signed message of a ballot binds.
use generalised_elgamal_voti.Shared.{
  ℕ, ◌^◌, ◌<◌, ◌≡◌, refl, sym, ap, ap₂, ◌∙◌, arith, Bool, false, not, ◌||◌, List, [], ◌∷◌, ◌++◌,
  length, ltb, ◌==◌, ok, bind-ok, raise_if-ok, ok_injective, append_assoc,
}
use generalised_elgamal_voti.Shared.Bytes.{Bytes, big_endian}
use generalised_elgamal_voti.Shared.Framing.{append_injective, number_injective, framed_injective}
use generalised_elgamal_voti.Params.{to_bytes, to_bytes_fits, u16be, u32be}
use generalised_elgamal_voti.Attestation.{Attestation}
use generalised_elgamal_voti.Ballot.Messages.{
  ballot_message_label, bad_ciphertext, join_ciphertexts, canonical_ballot_message,
}

-- The sizes that a message was written with.
record Sized (election_id pseudonym : Bytes) (cts : List (Bytes × Bytes)) (zk_proof : Bytes)
    (att : Attestation) : Type 0 where
  id_size : length election_id ≡ 32
  pseudonym_size : length pseudonym ≡ 32
  ciphertexts : bad_ciphertext cts ≡ false
  att_pseudonym : length att.pseudonym ≡ 32
  att_vk : length att.vk ≡ 48
  count : length cts < 256 ^ 2
  proof : length zk_proof < 256 ^ 4
  weight : att.weight < 256 ^ 32
  nonce : att.nonce < 256 ^ 32
  signature : length att.signature < 256 ^ 2

-- The parts of a message, with the encoded numbers as bytes.
abbrev assemble : (id p count cts size zk ap vk weight nonce sig_size sig : Bytes) → Bytes
assemble id p count cts size zk ap vk weight nonce sig_size sig =
    ballot_message_label
    ++ (id
        ++ (p
            ++ (count
                ++ (cts
                    ++ (size
                        ++ (zk ++ (ap ++ (vk ++ (weight ++ (nonce ++ (sig_size ++ sig)))))))))))

assemble_congr :
    (id p c c2 cts s s2 zk ap vk w w2 n n2 g g2 sig : Bytes)
    → c ≡ c2
    → s ≡ s2
    → w ≡ w2
    → n ≡ n2
    → g ≡ g2
    → assemble id p c cts s zk ap vk w n g sig ≡ assemble id p c2 cts s2 zk ap vk w2 n2 g2 sig
assemble_congr id p c c2 cts s s2 zk a vk w w2 n n2 g g2 sig e1 e2 e3 e4 e5 =
    ap (λ (x : Bytes). assemble id p x cts s zk a vk w n g sig) e1
    ∙ ap (λ (x : Bytes). assemble id p c2 cts x zk a vk w n g sig) e2
    ∙ ap (λ (x : Bytes). assemble id p c2 cts s2 zk a vk x n g sig) e3
    ∙ ap (λ (x : Bytes). assemble id p c2 cts s2 zk a vk w2 x g sig) e4
    ∙ ap (λ (x : Bytes). assemble id p c2 cts s2 zk a vk w2 n2 x sig) e5

abbrev message :
    (election_id pseudonym : Bytes) (cts : List (Bytes × Bytes)) (zk_proof : Bytes)
    (att : Attestation)
    → Bytes
message election_id pseudonym cts zk_proof att =
    assemble election_id pseudonym (big_endian 2 (length cts)) (join_ciphertexts cts)
      (big_endian 4 (length zk_proof)) zk_proof att.pseudonym att.vk (big_endian 32 att.weight)
      (big_endian 32 att.nonce) (big_endian 2 (length att.signature)) att.signature

size_is : (bs : Bytes) (n : ℕ) → not (length bs == n) ≡ false → length bs ≡ n
size_is bs n h = ground arith

canonical_ballot_message_parts :
    (id p : Bytes) (cts : List (Bytes × Bytes)) (zk : Bytes) (att : Attestation) (m : Bytes)
    → canonical_ballot_message id p cts zk att ≡ ok m
    → Sized id p cts zk att × (m ≡ message id p cts zk att)
unfolding canonical_ballot_message u16be u32be
canonical_ballot_message_parts id p cts zk att m h =
    let (c1, h1) = raise_if-ok (not (length id == 32)) _ _ m h in
    let (c2, h2) = raise_if-ok (not (length p == 32)) _ _ m h1 in
    let (c3, h3) = raise_if-ok (bad_ciphertext cts) _ _ m h2 in
    let (c4, h4) = raise_if-ok (not (length att.pseudonym == 32)) _ _ m h3 in
    let (c5, h5) = raise_if-ok (not (length att.vk == 48)) _ _ m h4 in
    let (b6, e6, h6) = bind-ok (to_bytes (length cts) 2) _ m h5 in
    let (b7, e7, h7) = bind-ok (to_bytes (length zk) 4) _ m h6 in
    let (b8, e8, h8) = bind-ok (to_bytes att.weight 32) _ m h7 in
    let (b9, e9, h9) = bind-ok (to_bytes att.nonce 32) _ m h8 in
    let (c10, h10) = raise_if-ok (ltb 65535 (length att.signature)) _ _ m h9 in
    let (b11, e11, h11) = bind-ok (to_bytes (length att.signature) 2) _ m h10 in
    let (s6, p6) = to_bytes_fits (length cts) 2 b6 e6 in
    let (s7, p7) = to_bytes_fits (length zk) 4 b7 e7 in
    let (s8, p8) = to_bytes_fits att.weight 32 b8 e8 in
    let (s9, p9) = to_bytes_fits att.nonce 32 b9 e9 in
    let (s11, p11) = to_bytes_fits (length att.signature) 2 b11 e11 in
    (
      record {
        id_size = size_is id 32 c1;
        pseudonym_size = size_is p 32 c2;
        ciphertexts = c3;
        att_pseudonym = size_is att.pseudonym 32 c4;
        att_vk = size_is att.vk 48 c5;
        count = s6;
        proof = s7;
        weight = s8;
        nonce = s9;
        signature = s11;
      },
      sym (ok_injective _ m h11)
          ∙ assemble_congr id p b6 _ (join_ciphertexts cts) b7 _ zk att.pseudonym att.vk b8 _ b9 _
              b11 _ att.signature p6 p7 p8 p9 p11,
    )

sizes :
    (c1 c2 : Bytes) (rest : Bool)
    → ((not (length c1 == 96) || not (length c2 == 96)) || rest) ≡ false
    → (length c1 ≡ 96) × (length c2 ≡ 96) × (rest ≡ false)
sizes c1 c2 rest h = ground arith

-- Equally many ciphertexts of 96 bytes each, in front of other bytes.
join_ciphertexts_injective :
    (xs ys : List (Bytes × Bytes)) (a b : Bytes)
    → bad_ciphertext xs ≡ false
    → bad_ciphertext ys ≡ false
    → length xs ≡ length ys
    → join_ciphertexts xs ++ a ≡ join_ciphertexts ys ++ b
    → (xs ≡ ys) × (a ≡ b)
unfolding bad_ciphertext join_ciphertexts
join_ciphertexts_injective [] [] a b h k l e = (refl, e)
join_ciphertexts_injective [] (y ∷ ys) a b h k l e = absurd (omega arith)
join_ciphertexts_injective (x ∷ xs) [] a b h k l e = absurd (omega arith)
join_ciphertexts_injective ((x1, x2) ∷ xs) ((y1, y2) ∷ ys) a b h k l e =
    let (hx1, hx2, hx) = sizes x1 x2 (bad_ciphertext xs) h in
    let (hy1, hy2, hy) = sizes y1 y2 (bad_ciphertext ys) k in
    let (p1, e1) =
      append_injective x1 y1 (x2 ++ (join_ciphertexts xs ++ a)) (y2 ++ (join_ciphertexts ys ++ b))
        (hx1 ∙ sym hy1)
        (sym (
            append_assoc x1 (x2 ++ join_ciphertexts xs) a
            ∙ ap (◌++◌ x1) (append_assoc x2 (join_ciphertexts xs) a))
          ∙ e
          ∙ append_assoc y1 (y2 ++ join_ciphertexts ys) b
          ∙ ap (◌++◌ y1) (append_assoc y2 (join_ciphertexts ys) b)) in
    let (p2, e2) = append_injective x2 y2 _ _ (hx2 ∙ sym hy2) e1 in
    let (p3, e3) = join_ciphertexts_injective xs ys a b hx hy (omega arith) e2 in
    (ap₂ ◌∷◌ (ap₂ (λ s t. (s, t)) p1 p2) p3, e3)

-- Ballots with the same signed message are the same: election, pseudonym, ciphertexts, proof, and of the
-- credential the pseudonym, the key, the weight, the nonce and the signature.
pub canonical_ballot_message_injective :
    (id id2 p p2 : Bytes) (cts cts2 : List (Bytes × Bytes)) (zk zk2 : Bytes)
    (att att2 : Attestation) (m : Bytes)
    → canonical_ballot_message id p cts zk att ≡ ok m
    → canonical_ballot_message id2 p2 cts2 zk2 att2 ≡ ok m
    → (id ≡ id2)
      × (p ≡ p2)
      × (cts ≡ cts2)
      × (zk ≡ zk2)
      × (att.pseudonym ≡ att2.pseudonym)
      × (att.vk ≡ att2.vk)
      × (att.weight ≡ att2.weight)
      × (att.nonce ≡ att2.nonce)
      × (att.signature ≡ att2.signature)
canonical_ballot_message_injective id id2 p p2 cts cts2 zk zk2 att att2 m h h2 =
    let (s, e) = canonical_ballot_message_parts id p cts zk att m h in
    let (t, f) = canonical_ballot_message_parts id2 p2 cts2 zk2 att2 m h2 in
    let (_, e1) = append_injective ballot_message_label ballot_message_label _ _ refl (sym e ∙ f) in
    let (same_id, e2) = append_injective id id2 _ _ (s.id_size ∙ sym t.id_size) e1 in
    let (same_p, e3) = append_injective p p2 _ _ (s.pseudonym_size ∙ sym t.pseudonym_size) e2 in
    let (counts, e4) = number_injective 2 (length cts) (length cts2) _ _ s.count t.count e3 in
    let (same_cts, e5) =
      join_ciphertexts_injective cts cts2 _ _ s.ciphertexts t.ciphertexts counts e4 in
    let (same_zk, e6) = framed_injective 4 zk zk2 _ _ s.proof t.proof e5 in
    let (same_ap, e7) =
      append_injective att.pseudonym att2.pseudonym _ _ (s.att_pseudonym ∙ sym t.att_pseudonym)
        e6 in
    let (same_vk, e8) = append_injective att.vk att2.vk _ _ (s.att_vk ∙ sym t.att_vk) e7 in
    let (weights, e9) = number_injective 32 att.weight att2.weight _ _ s.weight t.weight e8 in
    let (nonces, e10) = number_injective 32 att.nonce att2.nonce _ _ s.nonce t.nonce e9 in
    let (_, signatures) =
      number_injective 2 (length att.signature) (length att2.signature) att.signature att2.signature
        s.signature t.signature e10 in
    (same_id, same_p, same_cts, same_zk, same_ap, same_vk, weights, nonces, signatures)
