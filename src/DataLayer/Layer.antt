-- ===== src/DataLayer/Layer.antt =====
-- adapters/memory.py: the data layer of all elections, its writes and its reads.
use generalised_elgamal_voti.Shared.{
  ℕ, ◌+◌, Bool, false, not, ◌&&◌, ◌||◌, List, [], ◌∷◌, map, length, take, drop, ◌==◌, Option, none,
  some, is_some, ok, err, Fallible, key_error, immutability_error, write_authorization_error, ◌>>=◌,
  ◌>>◌, raise_if,
}
use generalised_elgamal_voti.Shared.Bytes.{Bytes}
use generalised_elgamal_voti.Shared.Keys.{same_list, number_key, bytes_key}
use generalised_elgamal_voti.Shared.Dict.{Dict, lookup, insert, sorted_items}
use generalised_elgamal_voti.Params.{to_bytes}
use generalised_elgamal_voti.Config.{ElectionConfig, post_init}
use generalised_elgamal_voti.Envelopes.{
  BallotEnvelope, StoredBallot, DkgResultSubmission, DecryptionShareEnvelope, AggregateArtifact,
  ResultArtifact, FinalizedKey,
}
use generalised_elgamal_voti.WriteAuth.{SignatureLibrary, verify_register}
use generalised_elgamal_voti.DataLayer.Defs.{
  Stored, new_stored, finalized_key_of, canonical_aggregate,
}
use generalised_elgamal_voti.DataLayer.Writes.{
  accept_cancel, accept_dkg_result, accept_ballot, accept_aggregate, accept_decryption_share,
  accept_result, accept_tally_stalled, stall_op,
}

-- `InMemoryDataLayer`; a used nonce is an election, an operation and a time.
pub record DataLayer : Type 0 where
  pub elections : Dict Bytes Stored
  pub next_id : ℕ
  pub used_request_nonces : List (Bytes × Bytes × ℕ)

unfoldable pub new_data_layer : DataLayer
new_data_layer = record { elections = []; next_id = 0; used_request_nonces = [] }

-- `_get`
unfoldable pub get : DataLayer → (election_id : Bytes) → Fallible Stored
get d election_id = elim (lookup election_id d.elections) [ none ↦ err key_error | some st ↦ ok st ]

-- What is stored of an election, changed in place.
unfoldable pub put : (election_id : Bytes) → Stored → DataLayer → DataLayer
put election_id st d = record d { elections = insert election_id st d.elections }

unfoldable pub is_used : Bytes × Bytes × ℕ → List (Bytes × Bytes × ℕ) → Bool
is_used nonce [] = false
is_used nonce (used ∷ rest) =
    (same_list nonce.0 used.0 && (same_list nonce.1 used.1 && nonce.2 == used.2))
    || is_used nonce rest

module _ (lib : SignatureLibrary) where
  -- `replace` checks the configuration again, which has passed the same check when it was made.
  unfoldable pub register_election :
      ElectionConfig → (admin_sig : Bytes) → DataLayer → Fallible (Bytes × DataLayer)
  unfolding new_stored put
  register_election config admin_sig d = do
    raise_if (not (verify_register lib config.admin_key admin_sig config)) write_authorization_error
    election_id ← to_bytes (d.next_id + 1) 32
    raise_if (not (same_list config.election_id election_id)) immutability_error
    let stored : ElectionConfig = record config { election_id = election_id }
    post_init stored
    ok (election_id, put election_id (new_stored stored) (record d { next_id = d.next_id + 1 }))

  unfoldable pub cancel_election :
      (now : ℕ) (election_id admin_sig : Bytes) → DataLayer → Fallible DataLayer
  unfolding get put
  cancel_election now election_id admin_sig d = do
    st ← get d election_id
    new ← accept_cancel lib now election_id admin_sig st
    ok (put election_id new d)

  unfoldable pub submit_dkg_result :
      (election_id pk_election : Bytes) (committee_pks : List Bytes) (keyper_sig : Bytes)
      → DataLayer
      → Fallible DataLayer
  unfolding get put
  submit_dkg_result election_id pk_election committee_pks keyper_sig d = do
    st ← get d election_id
    new ← accept_dkg_result lib election_id pk_election committee_pks keyper_sig st
    ok (put election_id new d)

  unfoldable pub submit_ballot :
      (now : ℕ) (election_id : Bytes)
      → BallotEnvelope
      → (gateway_sig : Bytes) → DataLayer
      → Fallible (ℕ × DataLayer)
  unfolding get put
  submit_ballot now election_id ballot gateway_sig d = do
    st ← get d election_id
    (seq, new) ← accept_ballot lib now ballot gateway_sig st
    ok (seq, put election_id new d)

  unfoldable pub get_aggregate :
      DataLayer → (election_id : Bytes) → Fallible (Option AggregateArtifact)
  unfolding get canonical_aggregate
  get_aggregate d election_id = do st ← get d election_id; canonical_aggregate lib election_id st

  -- `_aggregate_finalized`
  unfoldable pub aggregate_finalized : DataLayer → Stored → Fallible Bool
  unfolding get_aggregate
  aggregate_finalized d st = do
    aggregate ← get_aggregate d st.config.election_id
    ok (is_some aggregate)

  unfoldable pub submit_aggregate :
      (now : ℕ) (election_id : Bytes)
      → AggregateArtifact
      → (keyper_sig : Bytes) → DataLayer
      → Fallible DataLayer
  unfolding get put aggregate_finalized
  submit_aggregate now election_id aggregate keyper_sig d = do
    st ← get d election_id
    new ← accept_aggregate lib now election_id aggregate keyper_sig (aggregate_finalized d st) st
    ok (put election_id new d)

  unfoldable pub submit_decryption_share :
      (now : ℕ) (election_id : Bytes)
      → DecryptionShareEnvelope
      → (keyper_sig : Bytes) → DataLayer
      → Fallible DataLayer
  unfolding get put aggregate_finalized
  submit_decryption_share now election_id share keyper_sig d = do
    st ← get d election_id
    new ← accept_decryption_share lib now election_id share keyper_sig (aggregate_finalized d st) st
    ok (put election_id new d)

  unfoldable pub publish_result :
      (election_id : Bytes)
      → ResultArtifact
      → (result_publisher_sig : Bytes) → DataLayer
      → Fallible DataLayer
  unfolding get put
  publish_result election_id result result_publisher_sig d = do
    st ← get d election_id
    new ← accept_result lib election_id result result_publisher_sig st
    ok (put election_id new d)

  unfoldable pub set_tally_stalled :
      (now later : ℕ) (election_id : Bytes) (stalled : Bool) (sig : Bytes) (issued_at : ℕ)
      → DataLayer
      → Fallible DataLayer
  unfolding get put is_used
  set_tally_stalled now later election_id stalled sig issued_at d = do
    st ← get d election_id
    let nonce : Bytes × Bytes × ℕ = (election_id, stall_op lib stalled, issued_at)
    new ←
        accept_tally_stalled lib now later election_id stalled sig issued_at
          (is_used nonce d.used_request_nonces) st
    ok (put election_id new (record d { used_request_nonces = nonce ∷ d.used_request_nonces }))

unfoldable pub get_finalized_key :
    DataLayer → (election_id : Bytes) → Fallible (Option FinalizedKey)
unfolding get finalized_key_of
get_finalized_key d election_id = do st ← get d election_id; finalized_key_of st

-- `[d[i] for i in sorted(d)]`
unfoldable pub sorted_values {ℓ} : {V : Type ℓ} → Dict ℕ V → List V
sorted_values items = map (λ t. t.1) (sorted_items items)

unfoldable pub get_dkg_submissions :
    DataLayer → (election_id : Bytes) → Fallible (List DkgResultSubmission)
unfolding get sorted_values
get_dkg_submissions d election_id = do st ← get d election_id; ok (sorted_values st.dkg_by_keyper)

unfoldable pub list_decryption_shares :
    DataLayer → (election_id : Bytes) → Fallible (List DecryptionShareEnvelope)
unfolding get sorted_values
list_decryption_shares d election_id = do
  st ← get d election_id
  ok (sorted_values st.shares_by_keyper)

-- `st.ballots[start : start + count]`
unfoldable pub list_ballots :
    DataLayer → (election_id : Bytes) (start count : ℕ) → Fallible (List StoredBallot)
unfolding get
list_ballots d election_id start count = do
  st ← get d election_id
  ok (take count (drop start st.ballots))

unfoldable pub count_ballots : DataLayer → (election_id : Bytes) → Fallible ℕ
unfolding get
count_ballots d election_id = do st ← get d election_id; ok (length st.ballots)

unfoldable pub get_result : DataLayer → (election_id : Bytes) → Fallible (Option ResultArtifact)
unfolding get
get_result d election_id = do st ← get d election_id; ok st.result
