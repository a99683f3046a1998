-- ===== src/DataLayer/Defs.antt =====
-- adapters/memory.py: what is stored of an election, the finalized key and the quorum of the aggregate.
use generalised_elgamal_voti.Shared.{
  ℕ, suc, Bool, false, List, [], ◌∷◌, if◌then◌else◌, Option, none, ok, err, Fallible,
  write_authorization_error, ◌>>=◌,
}
use generalised_elgamal_voti.Shared.Bytes.{Bytes}
use generalised_elgamal_voti.Shared.Keys.{same_list, number_key, bytes_key}
use generalised_elgamal_voti.Shared.Dict.{Dict}
use generalised_elgamal_voti.Config.{ElectionConfig, KeyperIdentity}
use generalised_elgamal_voti.Quorum.{resolve_unique, group_from, add}
use generalised_elgamal_voti.Envelopes.{
  StoredBallot, DkgResultSubmission, DecryptionShareEnvelope, AggregateArtifact, ResultArtifact,
  FinalizedKey,
}
use generalised_elgamal_voti.Envelopes.Equality.{finalized_key_key}
use generalised_elgamal_voti.WriteAuth.{SignatureLibrary, aggregate_digest_of, recover_digest}

-- `_Stored`
pub record Stored : Type 0 where
  pub config : ElectionConfig
  pub is_cancelled : Bool
  pub dkg_by_keyper : Dict ℕ DkgResultSubmission
  pub ballots : List StoredBallot
  pub aggregate_by_keyper : Dict ℕ AggregateArtifact
  pub shares_by_keyper : Dict ℕ DecryptionShareEnvelope
  pub result : Option ResultArtifact
  pub is_tally_stalled : Bool

-- `_Stored(config=stored)`
unfoldable pub new_stored : ElectionConfig → Stored
new_stored config = record {
  config = config;
  is_cancelled = false;
  dkg_by_keyper = [];
  ballots = [];
  aggregate_by_keyper = [];
  shares_by_keyper = [];
  result = none;
  is_tally_stalled = false;
}

-- `except Exception as exc: raise WriteAuthorizationError(...) from exc`
unfoldable pub or_unauthorized : {A : Type 0} → Fallible A → Fallible A
or_unauthorized (ok a) = ok a
or_unauthorized (err _) = err write_authorization_error

-- The loop of `_keyper_index_by_recovery`, from the index `i`.
unfoldable pub find_keyper : (recovered : Bytes) (i : ℕ) → List KeyperIdentity → Fallible ℕ
find_keyper recovered i [] = err write_authorization_error
find_keyper recovered i (k ∷ keypers) =
    if same_list k.signing_key recovered then ok i else find_keyper recovered (suc i) keypers

-- The key that a submission votes for.
unfoldable pub voted_key : DkgResultSubmission → FinalizedKey
voted_key sub = record { pk_election = sub.pk_election; committee_pks = sub.committee_pks }

unfoldable pub voted_keys : Dict ℕ DkgResultSubmission → Dict ℕ FinalizedKey
unfolding voted_key
voted_keys [] = []
voted_keys ((i, sub) ∷ submissions) = (i, voted_key sub) ∷ voted_keys submissions

-- `_finalized_key_of`
unfoldable pub finalized_key_of : Stored → Fallible (Option FinalizedKey)
unfolding voted_keys
finalized_key_of st =
    resolve_unique (group_from [] (voted_keys st.dkg_by_keyper)) st.config.threshold.t

-- `groups.setdefault(key, (agg, set()))` and `keypers.add(idx)`
unfoldable pub add_to_aggregate_group :
    (digest : Bytes)
    → AggregateArtifact
    → ℕ
    → Dict Bytes (AggregateArtifact × List ℕ)
    → Dict Bytes (AggregateArtifact × List ℕ)
add_to_aggregate_group digest agg i [] = (digest, (agg, i ∷ [])) ∷ []
add_to_aggregate_group digest agg i ((d, (first, keypers)) ∷ groups) =
    if same_list digest d
    then (d, (first, add i keypers)) ∷ groups
    else (d, (first, keypers)) ∷ add_to_aggregate_group digest agg i groups

-- `groups.values()`
unfoldable pub group_values :
    Dict Bytes (AggregateArtifact × List ℕ) → Dict AggregateArtifact (List ℕ)
group_values [] = []
group_values ((_, group) ∷ groups) = group ∷ group_values groups

module _ (lib : SignatureLibrary) where
  -- `_keyper_index_by_recovery`
  unfoldable pub keyper_index_by_recovery : ElectionConfig → (digest sig : Bytes) → Fallible ℕ
  unfolding or_unauthorized find_keyper
  keyper_index_by_recovery config digest sig = do
    recovered ← or_unauthorized (recover_digest lib digest sig)
    find_keyper recovered 1 config.keypers

  -- `_aggregate_groups`
  unfoldable pub aggregate_groups :
      (election_id : Bytes)
      → Dict Bytes (AggregateArtifact × List ℕ)
      → Dict ℕ AggregateArtifact
      → Fallible (Dict Bytes (AggregateArtifact × List ℕ))
  unfolding add_to_aggregate_group
  aggregate_groups election_id groups [] = ok groups
  aggregate_groups election_id groups ((i, agg) ∷ submissions) = do
    digest ← aggregate_digest_of lib election_id agg
    aggregate_groups election_id (add_to_aggregate_group digest agg i groups) submissions

  -- `get_aggregate` of a stored election
  unfoldable pub canonical_aggregate :
      (election_id : Bytes) → Stored → Fallible (Option AggregateArtifact)
  unfolding aggregate_groups group_values
  canonical_aggregate election_id st = do
    groups ← aggregate_groups election_id [] st.aggregate_by_keyper
    resolve_unique (group_values groups) st.config.threshold.t
