-- ===== src/WriteAuth/Requests.antt =====
-- core/authz.py: the requests that an identity signs, and their checks.
use generalised_elgamal_voti.Shared.{ℕ, ◌-◌, ◌+◌, Bool, ◌++◌, length, leb, ok, Fallible, ◌>>=◌}
use generalised_elgamal_voti.Shared.Bytes.{Bytes, encode as text}
use generalised_elgamal_voti.Shared.Keys.{same_list, number_key}
use generalised_elgamal_voti.Params.{to_bytes, u32be}
use generalised_elgamal_voti.Config.{ElectionConfig}
use generalised_elgamal_voti.Attestation.{false_on_error}
use generalised_elgamal_voti.WriteAuth.Library.{SignatureLibrary}
use generalised_elgamal_voti.WriteAuth.Digests.{recover_digest}

abbrev pub request_dst : Bytes
request_dst = text "SHUTTER-GOVERNANCE-PROTOCOL-REQUEST-v1"

-- The bytes below `request_digest`.
unfoldable pub request_preimage : (op election_id payload : Bytes) → Fallible Bytes
request_preimage op election_id payload = do
  op_length ← u32be (length op)
  id_length ← u32be (length election_id)
  payload_length ← u32be (length payload)
  ok (
      request_dst
      ++ (op_length ++ (op ++ (id_length ++ (election_id ++ (payload_length ++ payload))))))

unfoldable pub request_nonce_payload : (issued_at : ℕ) → Fallible Bytes
request_nonce_payload issued_at = to_bytes issued_at 8

abbrev pub request_freshness_s : ℕ
request_freshness_s = 300

-- `abs(now - issued_at) <= REQUEST_FRESHNESS_S`, where one of the two differences is 0
unfoldable pub request_is_fresh : (issued_at now : ℕ) → Bool
request_is_fresh issued_at now = leb ((now - issued_at) + (issued_at - now)) request_freshness_s

module _ (lib : SignatureLibrary) where
  unfoldable pub request_digest : (op election_id payload : Bytes) → Fallible Bytes
  unfolding request_preimage
  request_digest op election_id payload = do
    bytes ← request_preimage op election_id payload
    ok (lib.keccak bytes)

  unfoldable pub sign_request : (private_key : ℕ) (op election_id payload : Bytes) → Fallible Bytes
  unfolding request_digest
  sign_request private_key op election_id payload = do
    key ← to_bytes private_key 32
    digest ← request_digest op election_id payload
    ok (lib.sign_message key digest)

  unfoldable pub register_digest : ElectionConfig → Bytes
  register_digest config = lib.keccak (lib.config_json config)

  unfoldable pub sign_register : (private_key : ℕ) → ElectionConfig → Fallible Bytes
  unfolding register_digest
  sign_register private_key config = do
    key ← to_bytes private_key 32
    ok (lib.sign_message key (register_digest config))

  unfoldable pub verify_register : (admin_key signature : Bytes) → ElectionConfig → Bool
  unfolding register_digest recover_digest
  verify_register admin_key signature config = false_on_error do
    recovered ← recover_digest lib (register_digest config) signature
    ok (same_list recovered admin_key)

  unfoldable pub verify_request : (identity signature op election_id payload : Bytes) → Bool
  unfolding request_digest recover_digest
  verify_request identity signature op election_id payload = false_on_error do
    digest ← request_digest op election_id payload
    recovered ← recover_digest lib digest signature
    ok (same_list recovered identity)
