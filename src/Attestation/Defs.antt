-- ===== src/Attestation/Defs.antt =====
-- crypto/attestation.py: the message, its signature and its check; ports/eligibility.py:
-- `verify_attestation`. The check of the scheme is left out, since the enum has one member.
use generalised_elgamal_voti.Shared.{
  ℕ, Bool, false, not, ◌||◌, length, ◌≤◌, ◌≡◌, arith, ltb, ◌==◌, if◌then◌else◌, ok, err,
  value_error, Fallible, ◌>>=◌, ◌>>◌, raise_if,
}
use generalised_elgamal_voti.Shared.Bytes.{Bytes, encode as text}
use generalised_elgamal_voti.Shared.Keys.{same_list, number_key}
use generalised_elgamal_voti.Points.{PointLibrary, g1_from_compressed}
use generalised_elgamal_voti.Transcript.{
  Transcript, new_transcript, append, append_scalar, preimage,
}
use generalised_elgamal_voti.Schnorr.{sign, verify, encode, decode}

abbrev pub attestation_label : Bytes
attestation_label = text "SHUTTER-VOTE-ATTEST-v1"

-- `_attestation_transcript`: the guards, then the five fields.
unfoldable pub attestation_transcript :
    (election_id pseudonym vk : Bytes) (weight nonce : ℕ) → Fallible Transcript
attestation_transcript election_id pseudonym vk weight nonce = do
  raise_if (not (length election_id == 32)) value_error
  raise_if (not (length pseudonym == 32)) value_error
  raise_if (not (length vk == 48)) value_error
  raise_if (ltb weight 1) value_error
  raise_if (ltb nonce 1) value_error
  let t = new_transcript attestation_label
  with_id ← append t (text "attest:electionId") election_id
  with_pseudonym ← append with_id (text "attest:pseudonym") pseudonym
  with_vk ← append with_pseudonym (text "attest:vk") vk
  with_weight ← append_scalar with_vk (text "attest:weight") weight
  append_scalar with_weight (text "attest:nonce") nonce

-- The guard `n < 1` lets positive numbers through.
pub at_least_one : (n : ℕ) → 1 ≤ n → ltb n 1 ≡ false
at_least_one n h = ground arith

-- `except Exception: return False`
unfoldable pub false_on_error : Fallible Bool → Bool
false_on_error (ok b) = b
false_on_error (err _) = false

-- The credential; `scheme` has one value.
pub record Attestation : Type 0 where
  pub election_id : Bytes
  pub pseudonym : Bytes
  pub vk : Bytes
  pub weight : ℕ
  pub signature : Bytes
  pub nonce : ℕ

module _ (keccak : Bytes → Bytes) (L : PointLibrary) where
  unfoldable pub attestation_message :
      (election_id pseudonym vk : Bytes) (weight nonce : ℕ) → Fallible Bytes
  attestation_message election_id pseudonym vk weight nonce = do
    t ← attestation_transcript election_id pseudonym vk weight nonce
    ok (keccak (preimage t))

  -- The nonce `k` of the signature is an argument.
  unfoldable pub sign_attestation :
      (elig_sk : ℕ) (elig_vk : L.Point) (election_id pseudonym vk : Bytes) (weight nonce k : ℕ)
      → Fallible Bytes
  sign_attestation elig_sk elig_vk election_id pseudonym vk weight nonce k = do
    msg ← attestation_message election_id pseudonym vk weight nonce
    (R, s) ← sign keccak L elig_sk elig_vk msg k
    encode keccak L R s

  unfoldable pub checked_signature :
      (elig_vk election_id pseudonym vk : Bytes) (weight nonce : ℕ) (signature : Bytes)
      → Fallible Bool
  checked_signature elig_vk election_id pseudonym vk weight nonce signature = do
    point ← g1_from_compressed L elig_vk
    (R, s) ← decode keccak L signature
    msg ← attestation_message election_id pseudonym vk weight nonce
    verify keccak L point msg R s

  unfoldable pub verify_attestation_sig :
      (elig_vk election_id pseudonym vk : Bytes) (weight nonce : ℕ) (signature : Bytes) → Bool
  verify_attestation_sig elig_vk election_id pseudonym vk weight nonce signature =
      if not (length election_id == 32) || not (length pseudonym == 32) || not (length vk == 48)
      then false
      else if ltb weight 1 || ltb nonce 1
      then false
      else false_on_error
          (checked_signature elig_vk election_id pseudonym vk weight nonce signature)

  unfoldable pub verify_attestation :
      (eligibility_key : Bytes) (a : Attestation) (election_id : Bytes) → Bool
  verify_attestation eligibility_key a election_id =
      if not (same_list a.election_id election_id)
      then false
      else if ltb a.weight 1
      then false
      else verify_attestation_sig eligibility_key a.election_id a.pseudonym a.vk a.weight a.nonce
          a.signature
