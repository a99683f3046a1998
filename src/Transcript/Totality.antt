-- ===== src/Transcript/Totality.antt =====
-- crypto/transcript.py: appending short values raises nothing.
use generalised_elgamal_voti.Shared.{ℕ, ◌+◌, ◌<◌, ◌≡◌, refl, arith, length, length-append, ◌++◌, ok}
use generalised_elgamal_voti.Shared.Bytes.{Bytes, encode as text, big_endian}
use generalised_elgamal_voti.Params.{
  scalar_to_bytes, length-scalar_to_bytes, to_bytes, u32be, curve_order, mod_order-lt, wide_reduce,
}
use generalised_elgamal_voti.Points.{PointLibrary, HasCodec, g2_to_compressed}
use generalised_elgamal_voti.Points.Codec.{to_compressed-ok}
use generalised_elgamal_voti.Transcript.{
  dst_fiat_shamir, preimage, wide_hash, Transcript, append, append_scalar, append_point, challenge,
}

pub u32be-ok : (n : ℕ) → n < 4294967296 → u32be n ≡ ok (big_endian 4 n)
unfolding u32be to_bytes
u32be-ok n h = ground arith

pub append-ok :
    (t : Transcript) (tag value : Bytes)
    → length tag < 4294967296
    → length value < 4294967296
    → (u : Transcript) × (append t tag value ≡ ok u)
unfolding append
append-ok t tag value h k = rw (u32be-ok (length tag) h, u32be-ok (length value) k) (_, refl)

pub append_scalar-ok :
    (t : Transcript) (tag : Bytes) (n : ℕ)
    → length tag < 4294967296
    → (u : Transcript) × (append_scalar t tag n ≡ ok u)
unfolding append_scalar
append_scalar-ok t tag n h =
    append-ok t tag (scalar_to_bytes n) h (omega (arith, length-scalar_to_bytes n))

pub append_point-ok :
    (L : PointLibrary) (codec : HasCodec L 96) (t : Transcript) (tag : Bytes) (P : L.Point)
    → length tag < 4294967296
    → (u : Transcript) × (append_point L t tag P ≡ ok u)
unfolding append_point g2_to_compressed
append_point-ok L codec t tag P h =
    rw (to_compressed-ok L 96 codec P)
      (append-ok t tag (L.to_compressed_bytes P) h (omega (arith, codec.encoded_length P)))

wide_hash-lt : (keccak : Bytes → Bytes) (b : Bytes) → wide_hash keccak b < curve_order
unfolding wide_hash wide_reduce
wide_hash-lt keccak b = mod_order-lt _

-- The challenge is a reduced scalar.
pub challenge-reduced :
    (keccak : Bytes → Bytes) (t : Transcript) (tag : Bytes)
    → length tag < 4294967290
    → (e : ℕ) × (u : Transcript) × (challenge keccak t tag ≡ ok (e, u)) × (e < curve_order)
unfolding challenge
challenge-reduced keccak t tag h =
    let e =
      wide_hash keccak ((dst_fiat_shamir ++ big_endian 4 (length tag) ++ tag) ++ preimage t) in
    let longer : length (tag ++ text ":chal") ≡ length tag + 5 = length-append tag (text ":chal") in
    let (u, folded) = append_scalar-ok t (tag ++ text ":chal") e (omega arith) in
    rw (u32be-ok (length tag) (omega arith), folded) (e, u, refl, wide_hash-lt keccak _)

pub challenge-ok :
    (keccak : Bytes → Bytes) (t : Transcript) (tag : Bytes)
    → length tag < 4294967290
    → (e : ℕ) × (u : Transcript) × (challenge keccak t tag ≡ ok (e, u))
challenge-ok keccak t tag h = let (e, u, q, below) = challenge-reduced keccak t tag h in (e, u, q)
