-- ===== src/Shared/Framing.antt =====
-- Concatenations that can be taken apart: parts of known lengths, and parts behind their lengths.
use generalised_elgamal_voti.Shared.{
  ℕ, ◌^◌, ◌<◌, ◌≡◌, refl, sym, ap, ◌∙◌, ◌++◌, length, take, drop, take-append, drop-append,
}
use generalised_elgamal_voti.Shared.Bytes.{
  Bytes, big_endian, from_bytes, length-big_endian, from_bytes-big_endian,
}

-- Parts of one length.
pub append_injective : (a b c d : Bytes) → length a ≡ length b → a ++ c ≡ b ++ d → (a ≡ b) × (c ≡ d)
append_injective a b c d h e = (
  sym (take-append a c (length a) refl)
      ∙ ap (take (length a)) e
      ∙ take-append b d (length a) (sym h),
  sym (drop-append a c (length a) refl)
      ∙ ap (drop (length a)) e
      ∙ drop-append b d (length a) (sym h),
)

pub big_endian_injective :
    (k m n : ℕ) → m < 256 ^ k → n < 256 ^ k → big_endian k m ≡ big_endian k n → m ≡ n
big_endian_injective k m n h i e =
    sym (from_bytes-big_endian k m h) ∙ ap from_bytes e ∙ from_bytes-big_endian k n i

-- Numbers in `k` bytes, in front of other bytes.
pub number_injective :
    (k m n : ℕ) (c d : Bytes)
    → m < 256 ^ k
    → n < 256 ^ k
    → big_endian k m ++ c ≡ big_endian k n ++ d
    → (m ≡ n) × (c ≡ d)
number_injective k m n c d h i e =
    let (p, q) =
      append_injective (big_endian k m) (big_endian k n) c d
        (length-big_endian k m ∙ sym (length-big_endian k n)) e in
    (big_endian_injective k m n h i p, q)

-- Bytes behind their length in `k` bytes.
pub framed_injective :
    (k : ℕ) (a b c d : Bytes)
    → length a < 256 ^ k
    → length b < 256 ^ k
    → big_endian k (length a) ++ (a ++ c) ≡ big_endian k (length b) ++ (b ++ d)
    → (a ≡ b) × (c ≡ d)
framed_injective k a b c d h i e =
    let (sizes, rest) = number_injective k (length a) (length b) (a ++ c) (b ++ d) h i e in
    append_injective a b c d sizes rest
