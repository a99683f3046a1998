-- ===== src/Points/Arithmetic.antt =====
-- crypto/points.py: the wrappers over the group library and the compressed codecs.
use generalised_elgamal_voti.Shared.{
  ℕ, ◌%◌, Bool, not, Option, none, some, ◌==◌, length, is_yes, ok, err, Fallible, value_error,
  ◌>>=◌, ◌>>◌, raise_if,
}
use generalised_elgamal_voti.Shared.Bytes.{Bytes}
use generalised_elgamal_voti.Params.{curve_order, g1_bytes, g2_bytes}
use generalised_elgamal_voti.Points.Library.{PointLibrary}

module _ (L : PointLibrary) where
  -- `mul(P, scalar)`, whose scalar `_scalar` reduces.
  unfoldable pub mul : L.Point → ℕ → L.Point
  mul P scalar = L.times P (scalar % curve_order)

  unfoldable pub add : L.Point → L.Point → L.Point
  add P Q = L.plus P Q

  unfoldable pub neg : L.Point → L.Point
  neg P = L.negative P

  unfoldable pub eq : L.Point → L.Point → Bool
  eq P Q = is_yes (L.equal P Q)

  unfoldable pub is_identity : L.Point → Bool
  is_identity P = is_yes (L.equal P L.identity)

  -- The codecs of both groups, which differ in the size only.
  unfoldable pub to_compressed : ℕ → L.Point → Fallible Bytes
  to_compressed size P = do
    let b = L.to_compressed_bytes P
    raise_if (not (length b == size)) value_error
    ok b

  unfoldable pub or_value_error : Option L.Point → Fallible L.Point
  or_value_error none = err value_error
  or_value_error (some P) = ok P

  unfoldable pub from_compressed : ℕ → Bytes → Fallible L.Point
  unfolding or_value_error
  from_compressed size b = do
    raise_if (not (length b == size)) value_error
    P ← or_value_error (L.from_compressed_bytes b)
    raise_if (not (L.is_in_subgroup P)) value_error
    ok P

  unfoldable pub g1_to_compressed : L.Point → Fallible Bytes
  unfolding to_compressed
  g1_to_compressed = to_compressed g1_bytes

  unfoldable pub g2_to_compressed : L.Point → Fallible Bytes
  unfolding to_compressed
  g2_to_compressed = to_compressed g2_bytes

  unfoldable pub g1_from_compressed : Bytes → Fallible L.Point
  unfolding from_compressed
  g1_from_compressed = from_compressed g1_bytes

  unfoldable pub g2_from_compressed : Bytes → Fallible L.Point
  unfolding from_compressed
  g2_from_compressed = from_compressed g2_bytes
