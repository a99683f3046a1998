-- ===== src/Schnorr/Correctness.antt =====
-- crypto/schnorr.py: signatures verify, and the encoding reads back what it writes.
use native.Mathlib.Nat.{mod-eq_of_lt}
use generalised_elgamal_voti.Shared.{
  ℕ, ◌+◌, ◌*◌, ◌%◌, ◌≡◌, ◌≢◌, sym, ap, ◌∙◌, arith, true, ◌++◌, length, length-append, [], ◌∷◌,
  take-append, drop-append, ok, holds→is_yes, refuted→is_yes,
}
use generalised_elgamal_voti.Shared.Bytes.{Bytes}
use generalised_elgamal_voti.Modular.{
  Congruent, Congruent-trans, Congruent-of_eq, Congruent-add, Congruent-scale, Congruent-refl,
  mod-Congruent,
}
use generalised_elgamal_voti.Params.{
  mod_order-lt, curve_order, scalar_to_bytes, length-scalar_to_bytes, scalar_from_bytes-to_bytes,
}
use generalised_elgamal_voti.Points.{
  PointLibrary, IsPrimeOrderGroup, HasCodec, mul, add, g1_to_compressed, g1_from_compressed,
}
use generalised_elgamal_voti.Points.Laws.{mul_congr, mul-add, mul-mul}
use generalised_elgamal_voti.Points.Codec.{to_compressed-ok, from_compressed-bytes}
use generalised_elgamal_voti.Transcript.{hash_to_scalar}
use generalised_elgamal_voti.Schnorr.Defs.{dst_schnorr, challenge, sign, verify, encode, decode}

module _ (keccak : Bytes → Bytes) (L : PointLibrary) where
  -- The number that `sign` answers.
  pub response : (sk : ℕ) (vk : L.Point) (msg : Bytes) (k : ℕ) → ℕ
  response sk vk msg k = (k % curve_order + e * (sk % curve_order)) % curve_order
    where
      e : ℕ
      e = hash_to_scalar keccak dst_schnorr (
          L.to_compressed_bytes (mul L L.generator (k % curve_order))
          ∷ L.to_compressed_bytes vk
          ∷ msg
          ∷ [])

  pub response_reduced :
      (sk : ℕ) (vk : L.Point) (msg : Bytes) (k : ℕ)
      → response sk vk msg k % curve_order ≡ response sk vk msg k
  unfolding response
  response_reduced sk vk msg k = mod-eq_of_lt (mod_order-lt _)

module _ (keccak : Bytes → Bytes) (L : PointLibrary) (laws : IsPrimeOrderGroup L)
    (codec : HasCodec L 48) where
  equation :
      (k e sk : ℕ)
      → mul L L.generator ((k % curve_order + e * (sk % curve_order)) % curve_order)
        ≡ L.plus (mul L L.generator (k % curve_order)) (mul L (mul L L.generator sk) e)
  unfolding add
  equation k e sk =
      mul_congr L laws L.generator _ _ combined
      ∙ mul-add L laws L.generator (k % curve_order) (sk * e)
      ∙ ap (L.plus (mul L L.generator (k % curve_order))) (sym (mul-mul L laws L.generator sk e))
    where
      combined :
          Congruent curve_order
            ((k % curve_order + e * (sk % curve_order)) % curve_order)
            (k % curve_order + sk * e)
      combined = Congruent-trans curve_order (mod-Congruent curve_order _) (
          Congruent-add curve_order (Congruent-refl curve_order (k % curve_order)) (
            Congruent-trans curve_order (Congruent-of_eq curve_order _ _ (omega arith))
              (Congruent-scale curve_order e (mod-Congruent curve_order sk))))

  pub challenge-ok :
      (R vk : L.Point) (msg : Bytes)
      → challenge keccak L R vk msg
        ≡ ok (
            hash_to_scalar keccak dst_schnorr
              (L.to_compressed_bytes R ∷ L.to_compressed_bytes vk ∷ msg ∷ []))
  unfolding challenge g1_to_compressed
  challenge-ok R vk msg = rw (to_compressed-ok L 48 codec R, to_compressed-ok L 48 codec vk)

  pub sign-ok :
      (sk : ℕ) (vk : L.Point) (msg : Bytes) (k : ℕ)
      → sign keccak L sk vk msg k
        ≡ ok (mul L L.generator (k % curve_order), response keccak L sk vk msg k)
  unfolding sign response
  sign-ok sk vk msg k = rw (challenge-ok (mul L L.generator (k % curve_order)) vk msg)

  pub verify-response :
      (sk : ℕ) (msg : Bytes) (k : ℕ)
      → mul L L.generator sk ≢ L.identity
      → verify keccak L
          (mul L L.generator sk)
          msg
          (mul L L.generator (k % curve_order))
          (response keccak L sk (mul L L.generator sk) msg k)
        ≡ ok true
  unfolding verify response
  verify-response sk msg k key =
      let matches = holds→is_yes (L.equal _ _) (equation k e sk) in
      rw (
        refuted→is_yes (L.equal (mul L L.generator sk) L.identity) key,
        challenge-ok _ _ msg,
        matches,
      )
    where
      e : ℕ
      e = hash_to_scalar keccak dst_schnorr (
          L.to_compressed_bytes (mul L L.generator (k % curve_order))
          ∷ L.to_compressed_bytes (mul L L.generator sk)
          ∷ msg
          ∷ [])

  -- A signature made under the public key of a secret key, where that is not the identity, is made
  -- without an error and verifies.
  pub sign-verify :
      (sk : ℕ) (msg : Bytes) (k : ℕ)
      → mul L L.generator sk ≢ L.identity
      → (R : L.Point) × (s : ℕ) × (sign keccak L sk (mul L L.generator sk) msg k ≡ ok (R, s))
        × (verify keccak L (mul L L.generator sk) msg R s ≡ ok true)
  sign-verify sk msg k key =
      (_, _, sign-ok sk (mul L L.generator sk) msg k, verify-response sk msg k key)

  pub decode-wire :
      (R : L.Point) (s : ℕ)
      → decode keccak L (L.to_compressed_bytes R ++ scalar_to_bytes s) ≡ ok (R, s % curve_order)
  unfolding decode g1_from_compressed
  decode-wire R s =
      let size = codec.encoded_length R in
      let joined = length-append (L.to_compressed_bytes R) (scalar_to_bytes s) in
      let whole : length (L.to_compressed_bytes R ++ scalar_to_bytes s) ≡ 80 =
        omega (arith, joined, size, length-scalar_to_bytes s) in
      rw (
        whole,
        take-append (L.to_compressed_bytes R) (scalar_to_bytes s) 48 size,
        drop-append (L.to_compressed_bytes R) (scalar_to_bytes s) 48 size,
        from_compressed-bytes L 48 codec R,
        scalar_from_bytes-to_bytes s,
      )

  pub encode-ok :
      (R : L.Point) (s : ℕ)
      → encode keccak L R s ≡ ok (L.to_compressed_bytes R ++ scalar_to_bytes s)
  unfolding encode g1_to_compressed
  encode-ok R s = rw (to_compressed-ok L 48 codec R)

  -- Decoding an encoded signature gives it back, with s reduced modulo the order.
  pub encode-decode :
      (R : L.Point) (s : ℕ)
      → (b : Bytes) × (encode keccak L R s ≡ ok b) × (decode keccak L b ≡ ok (R, s % curve_order))
  encode-decode R s = (L.to_compressed_bytes R ++ scalar_to_bytes s, encode-ok R s, decode-wire R s)
