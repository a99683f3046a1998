-- ===== src/Schnorr/Defs.antt =====
-- crypto/schnorr.py: its functions. The nonce of `sign` is an argument, as in the source's
-- deterministic calls; `random_scalar` draws it otherwise.
use generalised_elgamal_voti.Shared.{
  ℕ, ◌+◌, ◌*◌, ◌%◌, Bool, false, not, [], ◌∷◌, ◌++◌, length, take, drop, ◌==◌, if◌then◌else◌,
  is_yes, ok, value_error, Fallible, ◌>>=◌, ◌>>◌, raise_if,
}
use generalised_elgamal_voti.Shared.Bytes.{Bytes, encode as text}
use generalised_elgamal_voti.Params.{curve_order, schnorr_bytes, scalar_to_bytes, scalar_from_bytes}
use generalised_elgamal_voti.Points.{PointLibrary, mul, g1_to_compressed, g1_from_compressed}
use generalised_elgamal_voti.Transcript.{hash_to_scalar}

abbrev pub dst_schnorr : Bytes
dst_schnorr = text "SHUTTER-VOTE-SCHNORR-v1"

module _ (keccak : Bytes → Bytes) (L : PointLibrary) where
  -- `_challenge`
  unfoldable pub challenge : (R vk : L.Point) (msg : Bytes) → Fallible ℕ
  challenge R vk msg = do
    r ← g1_to_compressed L R
    v ← g1_to_compressed L vk
    ok (hash_to_scalar keccak dst_schnorr (r ∷ v ∷ msg ∷ []))

  unfoldable pub keygen : ℕ → Fallible (ℕ × L.Point)
  keygen sk = do
    let reduced = sk % curve_order
    raise_if (reduced == 0) value_error
    ok (reduced, mul L L.generator reduced)

  unfoldable pub sign : (sk : ℕ) (vk : L.Point) (msg : Bytes) (k : ℕ) → Fallible (L.Point × ℕ)
  sign sk vk msg k = do
    let reduced = k % curve_order
    let R = mul L L.generator reduced
    e ← challenge R vk msg
    ok (R, (reduced + e * (sk % curve_order)) % curve_order)

  unfoldable pub verify : (vk : L.Point) (msg : Bytes) (R : L.Point) (s : ℕ) → Fallible Bool
  verify vk msg R s = if is_yes (L.equal vk L.identity) then ok false else do
    e ← challenge R vk msg
    ok (is_yes (L.equal (mul L L.generator s) (L.plus R (mul L vk e))))

  unfoldable pub encode : (R : L.Point) (s : ℕ) → Fallible Bytes
  encode R s = do r ← g1_to_compressed L R; ok (r ++ scalar_to_bytes s)

  unfoldable pub decode : Bytes → Fallible (L.Point × ℕ)
  decode b = do
    raise_if (not (length b == schnorr_bytes)) value_error
    R ← g1_from_compressed L (take 48 b)
    s ← scalar_from_bytes (drop 48 b)
    ok (R, s)
