-- ===== src/Transcript.antt =====
-- crypto/transcript.py: the Fiat-Shamir transcript and the hash to a scalar. `keccak` comes from
-- eth_utils and is a parameter.
use generalised_elgamal_voti.Shared.{ℕ, List, [], ◌∷◌, ◌++◌, length, ok, Fallible, ◌>>=◌}
use generalised_elgamal_voti.Shared.Bytes.{Bytes, encode}
use generalised_elgamal_voti.Params.{u32be, scalar_to_bytes, wide_reduce}
use generalised_elgamal_voti.Points.{PointLibrary, g2_to_compressed}
pub mod Totality

abbrev pub dst_fiat_shamir : Bytes
dst_fiat_shamir = encode "SHUTTER-VOTE-FS-v1"

-- `b"".join(parts)`
unfoldable pub join : List Bytes → Bytes
join [] = []
join (p ∷ ps) = p ++ join ps

pub record Transcript : Type 0 where
  pub parts : List Bytes

unfoldable pub new_transcript : Bytes → Transcript
new_transcript label = record { parts = label ∷ [] }

unfoldable pub preimage : Transcript → Bytes
unfolding join
preimage t = join t.parts

-- `append`; a slice of 2 ^ 32 bytes or more is an OverflowError.
unfoldable pub append : Transcript → (tag value : Bytes) → Fallible Transcript
append t tag value = do
  tag_length ← u32be (length tag)
  value_length ← u32be (length value)
  ok (record { parts = t.parts ++ tag_length ∷ tag ∷ value_length ∷ value ∷ [] })

unfoldable pub append_scalar : Transcript → (tag : Bytes) → ℕ → Fallible Transcript
unfolding append
append_scalar t tag s = append t tag (scalar_to_bytes s)

unfoldable pub append_point :
    (L : PointLibrary) → Transcript → (tag : Bytes) → L.Point → Fallible Transcript
unfolding append
append_point L t tag point = do value ← g2_to_compressed L point; append t tag value

module _ (keccak : Bytes → Bytes) where
  -- The dual hash, reduced.
  unfoldable pub wide_hash : Bytes → ℕ
  wide_hash preimage = wide_reduce (keccak (0 ∷ preimage) ++ keccak (1 ∷ preimage))

  -- The challenge, and the transcript that it is folded back into.
  unfoldable pub challenge : Transcript → (tag : Bytes) → Fallible (ℕ × Transcript)
  unfolding wide_hash preimage append_scalar
  challenge t tag = do
    tag_length ← u32be (length tag)
    let e = wide_hash ((dst_fiat_shamir ++ tag_length ++ tag) ++ preimage t)
    folded ← append_scalar t (tag ++ encode ":chal") e
    ok (e, folded)

  unfoldable pub hash_to_scalar : Bytes → List Bytes → ℕ
  unfolding wide_hash join
  hash_to_scalar domain_sep parts = wide_hash (domain_sep ++ join parts)
