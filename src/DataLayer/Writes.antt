-- ===== src/DataLayer/Writes.antt =====
-- adapters/memory.py: what every write does to the stored election, with its guards in their order. The
-- time that the clock reads is an argument.
use generalised_elgamal_voti.Shared.{
  ℕ, Bool, true, false, not, List, [], ◌∷◌, ◌++◌, map, length, take, drop, ltb, leb, ◌==◌,
  if◌then◌else◌, none, some, is_some, ok, err, Fallible, voting_window_error, immutability_error,
  write_authorization_error, ◌>>=◌, ◌>>◌, raise_if,
}
use generalised_elgamal_voti.Shared.Bytes.{Bytes, encode as text, from_bytes}
use generalised_elgamal_voti.Shared.Keys.{number_key, bytes_key}
use generalised_elgamal_voti.Shared.Dict.{lookup, insert}
use generalised_elgamal_voti.Config.{contains}
use generalised_elgamal_voti.State.{
  StateFacts, ElectionState, voting, cancelled, complete, dkg_failed, registered, key_ready,
  tallying, tally_stalled, derive_state,
}
use generalised_elgamal_voti.Envelopes.{
  BallotEnvelope, StoredBallot, DkgResultSubmission, DecryptionShareEntry, DecryptionShareEnvelope,
  AggregateArtifact, ResultArtifact,
}
use generalised_elgamal_voti.Envelopes.Equality.{
  finalized_key_key, aggregate_key, share_key, result_key,
}
use generalised_elgamal_voti.WriteAuth.{
  SignatureLibrary, dkg_result_digest, decryption_share_digest, ballot_digest, result_digest,
  aggregate_digest_of, recover_digest, verify_request, request_is_fresh, request_nonce_payload,
}
use generalised_elgamal_voti.DataLayer.Defs.{
  Stored, or_unauthorized, voted_key, finalized_key_of, keyper_index_by_recovery,
}

-- `state is ElectionState.VOTING`
unfoldable pub is_voting : ElectionState → Bool
is_voting voting = true
is_voting cancelled = false
is_voting complete = false
is_voting dkg_failed = false
is_voting registered = false
is_voting key_ready = false
is_voting tallying = false
is_voting tally_stalled = false

-- `_require_voting_open`
unfoldable pub require_voting_open : Stored → (now : ℕ) → Fallible Unit
unfolding is_voting
require_voting_open st now = do
  key ← finalized_key_of st
  let facts : StateFacts = record {
    is_cancelled = st.is_cancelled;
    key_finalized = is_some key;
    result_published = is_some st.result;
    is_tally_stalled = false;
  }
  raise_if (not (is_voting (derive_state st.config facts now))) voting_window_error

-- The `(e, z)` of a proof: its first 32 bytes and the others.
unfoldable pub proof_pair : DecryptionShareEntry → ℕ × ℕ
proof_pair entry = (from_bytes (take 32 entry.proof), from_bytes (drop 32 entry.proof))

module _ (lib : SignatureLibrary) where
  -- `cancel_election`
  unfoldable pub accept_cancel :
      (now : ℕ) (election_id admin_sig : Bytes) → Stored → Fallible Stored
  accept_cancel now election_id admin_sig st = do
    raise_if (leb st.config.voting_start now) immutability_error
    raise_if (not (verify_request lib st.config.admin_key admin_sig (text "cancel") election_id []))
        write_authorization_error
    ok (record st { is_cancelled = true })

  -- `submit_dkg_result`
  unfoldable pub accept_dkg_result :
      (election_id pk_election : Bytes) (committee_pks : List Bytes) (keyper_sig : Bytes)
      → Stored
      → Fallible Stored
  accept_dkg_result election_id pk_election committee_pks keyper_sig st = do
    digest ← dkg_result_digest lib election_id pk_election committee_pks
    idx ← keyper_index_by_recovery lib st.config digest keyper_sig
    let submission : DkgResultSubmission = record {
      election_id = election_id;
      pk_election = pk_election;
      committee_pks = committee_pks;
      keyper_signature = keyper_sig;
    }
    let existing = lookup idx st.dkg_by_keyper
    elim existing [
      | none ↦ ok (record st { dkg_by_keyper = insert idx submission st.dkg_by_keyper })
      | some old ↦
          if not (finalized_key_key.same (voted_key old) (voted_key submission))
          then err immutability_error
          else ok st
    ]

  -- `_require_gateway`
  unfoldable pub require_gateway : Stored → BallotEnvelope → (gateway_sig : Bytes) → Fallible Unit
  require_gateway st ballot gateway_sig = if length st.config.gateway_keys == 0 then ok tt else do
    recovered ←
        or_unauthorized
          (recover_digest lib (ballot_digest lib st.config.election_id ballot) gateway_sig)
    raise_if (not (contains recovered st.config.gateway_keys)) write_authorization_error

  -- `submit_ballot`
  unfoldable pub accept_ballot :
      (now : ℕ) → BallotEnvelope → (gateway_sig : Bytes) → Stored → Fallible (ℕ × Stored)
  unfolding require_gateway require_voting_open
  accept_ballot now ballot gateway_sig st = do
    require_gateway st ballot gateway_sig
    require_voting_open st now
    let seq = length st.ballots
    let stored : StoredBallot = record {
      sequence_number = seq;
      envelope = ballot;
      submitted_at = some now;
    }
    ok (seq, record st { ballots = st.ballots ++ stored ∷ [] })

  -- `submit_aggregate`; `finalized` is the answer of `_aggregate_finalized`.
  unfoldable pub accept_aggregate :
      (now : ℕ) (election_id : Bytes)
      → AggregateArtifact
      → (keyper_sig : Bytes) → (finalized : Fallible Bool) → Stored
      → Fallible Stored
  accept_aggregate now election_id aggregate keyper_sig finalized st = do
    raise_if (ltb now st.config.voting_end) voting_window_error
    digest ← aggregate_digest_of lib election_id aggregate
    idx ← keyper_index_by_recovery lib st.config digest keyper_sig
    let resent : Bool = elim (lookup idx st.aggregate_by_keyper) [
      | none ↦ false
      | some existing ↦ aggregate_key.same existing aggregate
    ]
    if resent then ok st else do
      is_final ← finalized
      raise_if is_final immutability_error
      ok (record st { aggregate_by_keyper = insert idx aggregate st.aggregate_by_keyper })

  -- `submit_decryption_share`
  unfoldable pub accept_decryption_share :
      (now : ℕ) (election_id : Bytes)
      → DecryptionShareEnvelope
      → (keyper_sig : Bytes) → (finalized : Fallible Bool) → Stored
      → Fallible Stored
  unfolding proof_pair
  accept_decryption_share now election_id share keyper_sig finalized st = do
    raise_if (ltb now st.config.voting_end) voting_window_error
    is_final ← finalized
    raise_if (not is_final) voting_window_error
    let shares = map (λ (e : DecryptionShareEntry). e.sigma) share.entries
    digest ← decryption_share_digest lib election_id shares (map proof_pair share.entries)
    idx ← keyper_index_by_recovery lib st.config digest keyper_sig
    raise_if (not (idx == share.keyper_index)) write_authorization_error
    let existing = lookup idx st.shares_by_keyper
    elim existing [
      | none ↦ ok (record st { shares_by_keyper = insert idx share st.shares_by_keyper })
      | some old ↦ if not (share_key.same old share) then err immutability_error else ok st
    ]

  -- `publish_result`
  unfoldable pub accept_result :
      (election_id : Bytes)
      → ResultArtifact
      → (result_publisher_sig : Bytes) → Stored
      → Fallible Stored
  accept_result election_id result result_publisher_sig st = do
    payload ← result_digest lib election_id result
    raise_if
        (not (
          verify_request lib st.config.result_publisher_key result_publisher_sig (text "result")
            election_id payload))
        write_authorization_error
    let existing = st.result
    elim existing [
      | none ↦ ok (record st { result = some result })
      | some old ↦ if not (result_key.same old result) then err immutability_error else ok st
    ]

  abbrev pub stall_op : Bool → Bytes
  stall_op stalled = if stalled then text "tally_stall" else text "tally_resume"

  -- `set_tally_stalled`, whose guards on time read the clock twice; `is_used` tells whether the request
  -- was accepted before.
  unfoldable pub accept_tally_stalled :
      (now later : ℕ) (election_id : Bytes) (stalled : Bool) (sig : Bytes) (issued_at : ℕ)
      → (is_used : Bool) → Stored
      → Fallible Stored
  accept_tally_stalled now later election_id stalled sig issued_at is_used st = do
    raise_if (not (request_is_fresh issued_at now)) write_authorization_error
    raise_if is_used write_authorization_error
    payload ← request_nonce_payload issued_at
    if stalled
        then (do
          raise_if (ltb later st.config.voting_end) voting_window_error
          raise_if (is_some st.result) immutability_error
          raise_if
              (not (
                verify_request lib st.config.result_publisher_key sig (stall_op stalled) election_id
                  payload))
              write_authorization_error)
        else raise_if
            (not
              (verify_request lib st.config.admin_key sig (stall_op stalled) election_id payload))
            write_authorization_error
    ok (record st { is_tally_stalled = stalled })
