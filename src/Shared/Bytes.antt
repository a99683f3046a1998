-- ===== src/Shared/Bytes.antt =====
-- Python's `bytes` as lists of numbers, `int.to_bytes` and `int.from_bytes` in big-endian order, and
-- the encoding of an ASCII text.
use Prim.Native.Char.{code}
use Prim.Native.String.{String}
use Prim.Native.Nat.{ℕ, zero, suc, ◌+◌, ◌-◌, ◌*◌, ◌/◌, ◌%◌, ◌^◌, ◌<◌, ◌≤◌}
use mathlib.Core.Path.{◌≡◌, refl, sym, ap, ◌∙◌}
use mathlib.Core.List.{List, [], ◌∷◌, ◌++◌}
use native.Mathlib.Nat.{pow-suc}
use native.Mathlib.Omega.{arith}
use mathlib.Core.Logic.{inl, inr}
use generalised_elgamal_voti.Shared.Tests.{ltb, if◌then◌else◌, Bool-cases}
use generalised_elgamal_voti.Shared.Lists.{length, length-append}

abbrev pub Bytes : Type 0
Bytes = List ℕ

-- `text.encode("utf-8")` of an ASCII text.
abbrev pub encode : String → Bytes
encode String.[] = []
encode (String.◌∷◌ c s) = code c ∷ encode s

-- The last `k` base-256 digits of `n`, the highest first.
unfoldable pub big_endian : ℕ → ℕ → Bytes
big_endian zero n = []
big_endian (suc k) n = big_endian k (n / 256) ++ n % 256 ∷ []

unfoldable pub read_digits : ℕ → Bytes → ℕ
read_digits acc [] = acc
read_digits acc (b ∷ bs) = read_digits (acc * 256 + b) bs

-- `int.from_bytes(b, "big")`.
unfoldable pub from_bytes : Bytes → ℕ
unfolding read_digits
from_bytes = read_digits 0

pub length-big_endian : (k n : ℕ) → length (big_endian k n) ≡ k
unfolding big_endian
length-big_endian zero n = refl
length-big_endian (suc k) n =
    omega
      (arith, length-append (big_endian k (n / 256)) (n % 256 ∷ []), length-big_endian k (n / 256))

read_digits-append :
    (acc : ℕ) (bs : Bytes) (b : ℕ) → read_digits acc (bs ++ b ∷ []) ≡ read_digits acc bs * 256 + b
unfolding read_digits
read_digits-append acc [] b = refl
read_digits-append acc (x ∷ bs) b = read_digits-append (acc * 256 + x) bs b

-- Decoding what was encoded, when it fits.
pub from_bytes-big_endian : (k n : ℕ) → n < 256 ^ k → from_bytes (big_endian k n) ≡ n
unfolding from_bytes big_endian read_digits
from_bytes-big_endian zero n h = omega arith
from_bytes-big_endian (suc k) n h =
    read_digits-append 0 (big_endian k (n / 256)) (n % 256)
    ∙ omega (arith, from_bytes-big_endian k (n / 256) (omega (arith, pow-suc 256 k)))

-- The decimal digits of `n`, with at least as much fuel as digits.
decimal_from : (fuel n : ℕ) → Bytes
decimal_from zero n = []
decimal_from (suc fuel) n =
    let rest = decimal_from fuel (n / 10) in
    if ltb n 10 then (48 + n) ∷ [] else rest ++ (48 + n % 10) ∷ []

-- `str(n)` in ASCII.
unfoldable pub decimal : ℕ → Bytes
unfolding decimal_from
decimal n = decimal_from (suc n) n

length-decimal_from : (fuel n : ℕ) → length (decimal_from fuel n) ≤ fuel
unfolding decimal_from
length-decimal_from zero n = omega arith
length-decimal_from (suc fuel) n = elim (Bool-cases (ltb n 10)) [
  | inl one ↦ rw one (omega arith)
  | inr more ↦ rw more (
      omega (
        arith,
        length-append (decimal_from fuel (n / 10)) ((48 + n % 10) ∷ []),
        length-decimal_from fuel (n / 10),
      ))
]

pub length-decimal : (n : ℕ) → length (decimal n) ≤ suc n
unfolding decimal
length-decimal n = length-decimal_from (suc n) n

-- The number that decimal digits stand for.
read_decimal : ℕ → Bytes → ℕ
read_decimal acc [] = acc
read_decimal acc (b ∷ bs) = read_decimal (acc * 10 + (b - 48)) bs

read_decimal-snoc :
    (acc : ℕ) (bs : Bytes) (b : ℕ)
    → read_decimal acc (bs ++ b ∷ []) ≡ read_decimal acc bs * 10 + (b - 48)
unfolding read_decimal
read_decimal-snoc acc [] b = refl
read_decimal-snoc acc (c ∷ bs) b = read_decimal-snoc (acc * 10 + (c - 48)) bs b

read_decimal-decimal_from : (fuel n : ℕ) → n < fuel → read_decimal 0 (decimal_from fuel n) ≡ n
unfolding read_decimal decimal_from
read_decimal-decimal_from zero n h = absurd (omega arith)
read_decimal-decimal_from (suc fuel) n h = elim (Bool-cases (ltb n 10)) [
  | inl one ↦ rw one (omega arith)
  | inr more ↦ rw more (
      omega (
        arith,
        read_decimal-snoc 0 (decimal_from fuel (n / 10)) (48 + n % 10),
        read_decimal-decimal_from fuel (n / 10) (ground arith),
      ))
]

-- The fuel is enough: the digits stand for `n`, so different numbers have different digits.
pub decimal_injective : (m n : ℕ) → decimal m ≡ decimal n → m ≡ n
unfolding decimal
decimal_injective m n e =
    sym (read_decimal-decimal_from (suc m) m (omega arith))
    ∙ ap (read_decimal 0) e
    ∙ read_decimal-decimal_from (suc n) n (omega arith)
