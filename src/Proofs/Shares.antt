-- ===== src/Proofs/Shares.antt =====
-- crypto/proofs.py: honest proofs of decryption shares and of an exact budget verify, and the encoding
-- of a proof reads back what it writes.
use generalised_elgamal_voti.Shared.{
  ℕ, ◌%◌, ◌<◌, ◌≡◌, arith, true, ok, length, length-append, take-append, drop-append, ◌++◌,
}
use generalised_elgamal_voti.Shared.Bytes.{Bytes, encode as text, big_endian, length-big_endian}
use generalised_elgamal_voti.Params.{
  curve_order, u16be, to_bytes, scalar_to_bytes, length-scalar_to_bytes, scalar_from_bytes-to_bytes,
}
use generalised_elgamal_voti.Points.{PointLibrary, IsPrimeOrderGroup, HasCodec, mul}
use generalised_elgamal_voti.Transcript.{Transcript}
use generalised_elgamal_voti.Transcript.Totality.{append-ok, append_point-ok}
use generalised_elgamal_voti.Proofs.Defs.{
  encode_dleq, decode_dleq, bind_decryption_share, prove_decryption_share, verify_decryption_share,
}
use generalised_elgamal_voti.Proofs.Dleq.{prove_dleq-verify_dleq}

-- Decoding an encoded proof gives its two numbers modulo the order.
pub decode_dleq-encode_dleq :
    (e z : ℕ) → decode_dleq (encode_dleq e z) ≡ ok (e % curve_order, z % curve_order)
unfolding decode_dleq encode_dleq
decode_dleq-encode_dleq e z =
    let size = length-scalar_to_bytes e in
    let joined = length-append (scalar_to_bytes e) (scalar_to_bytes z) in
    let whole : length (scalar_to_bytes e ++ scalar_to_bytes z) ≡ 64 =
      omega (arith, joined, size, length-scalar_to_bytes z) in
    rw (
      whole,
      take-append (scalar_to_bytes e) (scalar_to_bytes z) 32 size,
      drop-append (scalar_to_bytes e) (scalar_to_bytes z) 32 size,
      scalar_from_bytes-to_bytes e,
      scalar_from_bytes-to_bytes z,
    )

u16be-ok : (n : ℕ) → n < 65536 → u16be n ≡ ok (big_endian 2 n)
unfolding u16be to_bytes
u16be-ok n h = ground arith

module _ (keccak : Bytes → Bytes) (L : PointLibrary) (laws : IsPrimeOrderGroup L)
    (codec : HasCodec L 96) where
  bind_decryption_share-ok :
      (t : Transcript) (C1 C2 mpk_k : L.Point) (keyper_index : ℕ)
      → keyper_index < 65536
      → (u : Transcript) × (bind_decryption_share keccak L t C1 C2 mpk_k keyper_index ≡ ok u)
  unfolding bind_decryption_share
  bind_decryption_share-ok t C1 C2 mpk_k keyper_index small =
      let (t1, q1) = append_point-ok L codec t (text "dec:C1") C1 (omega arith) in
      let (t2, q2) = append_point-ok L codec t1 (text "dec:C2") C2 (omega arith) in
      let (t3, q3) = append_point-ok L codec t2 (text "dec:mpk_k") mpk_k (omega arith) in
      let (t4, q4) =
        append-ok t3 (text "dec:keyperIndex") (big_endian 2 keyper_index) (omega arith)
          (omega (arith, length-big_endian 2 keyper_index)) in
      (t4, rw (q1, q2, q3, u16be-ok keyper_index small, q4))

  -- A keyper of an index below 2^16 whose public share is msk_k times the generator makes a proof
  -- for the decryption share msk_k times the first part of a ciphertext without an error, and the
  -- proof verifies on the same transcript.
  pub prove_decryption_share-verify_decryption_share :
      (t : Transcript) (C1 C2 : L.Point) (msk_k keyper_index w : ℕ)
      → keyper_index < 65536
      → (e : ℕ) × (z : ℕ) × (prove_decryption_share keccak L t C1 C2
            (mul L L.generator msk_k)
            (mul L C1 msk_k)
            msk_k
            keyper_index
            w
          ≡ ok (e, z))
        × (verify_decryption_share keccak L t C1 C2
              (mul L L.generator msk_k)
              (mul L C1 msk_k)
              e
              z
              keyper_index
            ≡ ok true)
  unfolding prove_decryption_share verify_decryption_share
  prove_decryption_share-verify_decryption_share t C1 C2 msk_k keyper_index w small =
      let (u, bound) =
        bind_decryption_share-ok t C1 C2 (mul L L.generator msk_k) keyper_index small in
      let (e, z, proved, verified) =
        prove_dleq-verify_dleq keccak L laws codec L.generator C1 msk_k u w in
      (e, z, rw (bound, proved), rw (bound, verified))
