-- ===== src/Params/Encodings.antt =====
-- crypto/params.py: the constants of the protocol and its small encodings.
use native.Mathlib.Nat.{mod-lt}
use generalised_elgamal_voti.Shared.{
  ℕ, ◌%◌, ◌^◌, ◌<◌, ◌≡◌, arith, ltb, leb, ◌==◌, not, if◌then◌else◌, length, ok, err, Fallible,
  value_error, overflow_error, ◌>>◌, raise_if,
}
use generalised_elgamal_voti.Shared.Bytes.{
  Bytes, big_endian, from_bytes, length-big_endian, from_bytes-big_endian,
}

-- CURVE_ORDER, the order of both groups.
unfoldable pub curve_order : ℕ
curve_order = 52435875175126190479447740508185965837690552500527637822603658699938581184513

abbrev pub g1_bytes : ℕ
g1_bytes = 48

abbrev pub g2_bytes : ℕ
g2_bytes = 96

abbrev pub scalar_bytes : ℕ
scalar_bytes = 32

abbrev pub schnorr_bytes : ℕ
schnorr_bytes = 80

abbrev pub dleq_bytes : ℕ
dleq_bytes = 64

pub curve_order_big : 65536 < curve_order
unfolding curve_order
curve_order_big = omega arith

curve_order_fits : curve_order < 256 ^ 32
unfolding curve_order
curve_order_fits = omega arith

-- `int(n).to_bytes(k, "big")`.
unfoldable pub to_bytes : ℕ → ℕ → Fallible Bytes
to_bytes n k = if ltb n (256 ^ k) then ok (big_endian k n) else err overflow_error

-- What encoding without an error says.
pub to_bytes_fits :
    (n k : ℕ) (b : Bytes) → to_bytes n k ≡ ok b → (n < 256 ^ k) × (b ≡ big_endian k n)
unfolding to_bytes
to_bytes_fits n k b h = ground arith

unfoldable pub u16be : ℕ → Fallible Bytes
unfolding to_bytes
u16be n = to_bytes n 2

unfoldable pub u32be : ℕ → Fallible Bytes
unfolding to_bytes
u32be n = to_bytes n 4

-- A scalar always fits its 32 bytes (`to_bytes-scalar` below).
unfoldable pub scalar_to_bytes : ℕ → Bytes
scalar_to_bytes s = big_endian scalar_bytes (s % curve_order)

unfoldable pub scalar_from_bytes : Bytes → Fallible ℕ
scalar_from_bytes b = do
  raise_if (not (length b == scalar_bytes)) value_error
  let v = from_bytes b
  raise_if (leb curve_order v) value_error
  ok v

unfoldable pub wide_reduce : Bytes → ℕ
wide_reduce b = from_bytes b % curve_order

pub mod_order-lt : (s : ℕ) → s % curve_order < curve_order
mod_order-lt s = mod-lt s (omega (arith, curve_order_big))

-- The call of `to_bytes` in `scalar_to_bytes` does not overflow.
pub to_bytes-scalar : (s : ℕ) → to_bytes (s % curve_order) scalar_bytes ≡ ok (scalar_to_bytes s)
unfolding to_bytes scalar_to_bytes
to_bytes-scalar s = ground (arith, mod_order-lt s, curve_order_fits)

pub length-scalar_to_bytes : (s : ℕ) → length (scalar_to_bytes s) ≡ 32
unfolding scalar_to_bytes
length-scalar_to_bytes s = length-big_endian 32 (s % curve_order)

pub from_bytes-scalar_to_bytes : (s : ℕ) → from_bytes (scalar_to_bytes s) ≡ s % curve_order
unfolding scalar_to_bytes
from_bytes-scalar_to_bytes s =
    from_bytes-big_endian 32 (s % curve_order) (omega (arith, mod_order-lt s, curve_order_fits))

-- Decoding an encoded scalar gives the scalar modulo the order.
pub scalar_from_bytes-to_bytes :
    (s : ℕ) → scalar_from_bytes (scalar_to_bytes s) ≡ ok (s % curve_order)
unfolding scalar_from_bytes
scalar_from_bytes-to_bytes s =
    ground (arith, length-scalar_to_bytes s, from_bytes-scalar_to_bytes s, mod_order-lt s)

-- Only canonical encodings are accepted: 32 bytes, whose number is below the order.
pub scalar_from_bytes_iff :
    (b : Bytes) (v : ℕ)
    → scalar_from_bytes b ≡ ok v
    → (length b ≡ 32) × (v ≡ from_bytes b) × (v < curve_order)
unfolding scalar_from_bytes
scalar_from_bytes_iff b v h = ground arith
