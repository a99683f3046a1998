-- ===== src/Points/Library.antt =====
-- What crypto/points.py takes from py_arkworks_bls12381: the type of points of one group, with its
-- operators and its compressed encoding, and the laws that the library documents.
use generalised_elgamal_voti.Shared.{ℕ, ◌+◌, ◌*◌, ◌%◌, ◌<◌, ◌≡◌, Option, some, Bool, true, length}
use generalised_elgamal_voti.Shared.Bytes.{Bytes}
use generalised_elgamal_voti.Params.{curve_order}

pub record PointLibrary : Type 1 where
  pub Point : Type 0
  -- `G1Point()` or `G2Point()`, and `identity()`
  pub generator : Point
  pub identity : Point
  -- `P + Q`, `-P` and `P * Scalar(n)`
  pub plus : Point → Point → Point
  pub negative : Point → Point
  pub times : Point → ℕ → Point
  -- `P == Q`
  pub equal : Discrete Point
  pub to_compressed_bytes : Point → Bytes
  -- `none` when the library raises
  pub from_compressed_bytes : Bytes → Option Point
  pub is_in_subgroup : Point → Bool

-- The points form an abelian group of order `curve_order` that the generator generates, on which the
-- field of scalars acts.
pub record IsPrimeOrderGroup (L : PointLibrary) : Type 0 where
  pub plus_comm : (P Q : L.Point) → L.plus P Q ≡ L.plus Q P
  pub plus_assoc : (P Q R : L.Point) → L.plus (L.plus P Q) R ≡ L.plus P (L.plus Q R)
  pub plus_identity : (P : L.Point) → L.plus P L.identity ≡ P
  pub plus_negative : (P : L.Point) → L.plus P (L.negative P) ≡ L.identity
  pub times_one : (P : L.Point) → L.times P 1 ≡ P
  pub times_plus :
      (P : L.Point) (a b : ℕ)
      → a < curve_order
      → b < curve_order
      → L.times P ((a + b) % curve_order) ≡ L.plus (L.times P a) (L.times P b)
  pub times_times :
      (P : L.Point) (a b : ℕ)
      → a < curve_order
      → b < curve_order
      → L.times P ((a * b) % curve_order) ≡ L.times (L.times P a) b
  pub plus_times :
      (P Q : L.Point) (a : ℕ)
      → a < curve_order
      → L.times (L.plus P Q) a ≡ L.plus (L.times P a) (L.times Q a)
  pub generates : (P : L.Point) → (n : ℕ) × (P ≡ L.times L.generator n) × (n < curve_order)
  pub generator_injective :
      (a b : ℕ)
      → a < curve_order
      → b < curve_order
      → L.times L.generator a ≡ L.times L.generator b
      → a ≡ b

-- The compressed encoding has `size` bytes, and decoding reads back what was encoded.
pub record HasCodec (L : PointLibrary) (size : ℕ) : Type 0 where
  pub encoded_length : (P : L.Point) → length (L.to_compressed_bytes P) ≡ size
  pub decode_encode : (P : L.Point) → L.from_compressed_bytes (L.to_compressed_bytes P) ≡ some P
  pub in_subgroup : (P : L.Point) → L.is_in_subgroup P ≡ true
