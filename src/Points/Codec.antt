-- ===== src/Points/Codec.antt =====
-- crypto/points.py: the compressed codecs read back what they write, where the library's do.
use generalised_elgamal_voti.Shared.{ℕ, ◌≡◌, ap, arith, ok}
use generalised_elgamal_voti.Points.Library.{PointLibrary, HasCodec}
use generalised_elgamal_voti.Points.Arithmetic.{to_compressed, from_compressed}

module _ (L : PointLibrary) (size : ℕ) (codec : HasCodec L size) where
  pub to_compressed-ok : (P : L.Point) → to_compressed L size P ≡ ok (L.to_compressed_bytes P)
  unfolding to_compressed
  to_compressed-ok P = ground (arith, codec.encoded_length P)

  pub from_compressed-bytes :
      (P : L.Point) → from_compressed L size (L.to_compressed_bytes P) ≡ ok P
  unfolding from_compressed
  from_compressed-bytes P =
      ground (arith, codec.encoded_length P, codec.decode_encode P, codec.in_subgroup P)

  pub to_compressed_injective :
      (P Q : L.Point) → L.to_compressed_bytes P ≡ L.to_compressed_bytes Q → P ≡ Q
  to_compressed_injective P Q e = cc (codec.decode_encode P, codec.decode_encode Q, same)
    where
      same :
          L.from_compressed_bytes (L.to_compressed_bytes P)
          ≡ L.from_compressed_bytes (L.to_compressed_bytes Q)
      same = ap L.from_compressed_bytes e
