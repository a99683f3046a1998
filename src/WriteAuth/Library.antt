-- ===== src/WriteAuth/Library.antt =====
-- What core/write_auth.py and core/authz.py take from eth_utils, eth_account, eth_abi and json.
use generalised_elgamal_voti.Shared.{ℕ, List, Option, Fallible}
use generalised_elgamal_voti.Shared.Bytes.{Bytes}
use generalised_elgamal_voti.Config.{ElectionConfig}
use generalised_elgamal_voti.Envelopes.{BallotEnvelope}

pub record SignatureLibrary : Type 0 where
  pub keccak : Bytes → Bytes
  -- `Account.sign_message(encode_defunct(primitive=digest), key).signature`
  pub sign_message : (key digest : Bytes) → Bytes
  -- The address, without "0x", that `Account.recover_message` finds; `none` when it raises.
  pub recover_message : (digest signature : Bytes) → Option Bytes
  -- `abi_encode` of a list of bytes, of the pairs of the proofs, of the totals, keyper indices and bound,
  -- and of the fields of an aggregate. It raises for a number that has no place.
  pub abi_bytes_list : List Bytes → Fallible Bytes
  pub abi_proofs : List (ℕ × ℕ) → Fallible Bytes
  pub abi_result : List ℕ → List ℕ → ℕ → Fallible Bytes
  pub abi_tally : List (Bytes × Bytes) → List ℕ → List (ℕ × ℕ) → ℕ → ℕ → Fallible Bytes
  -- `json.dumps(..., sort_keys=True, separators=(",", ":")).encode("utf-8")` of the encoded ballot and of
  -- the encoded configuration
  pub ballot_json : BallotEnvelope → Bytes
  pub config_json : ElectionConfig → Bytes
