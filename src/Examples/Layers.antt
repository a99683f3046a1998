-- ===== src/Examples/Layers.antt =====
-- An election in the data layer: its registration, two submissions of the committee and a ballot; a
-- signature is the address of its signer.
use generalised_elgamal_voti.Shared.{
  ◌≡◌, ◌≢◌, refl, true, false, [], ◌∷◌, ◌++◌, map, replicate, Elem, Distinct, none, some, ok,
}
use generalised_elgamal_voti.Shared.Bytes.{Bytes, encode as text, big_endian}
use generalised_elgamal_voti.Shared.Keys.{bytes_key}
use generalised_elgamal_voti.Shared.Dict.{lookup}
use generalised_elgamal_voti.Shared.Int.{pos}
use generalised_elgamal_voti.Points.Scalars.{scalar_library}
use generalised_elgamal_voti.Config.{exact, variant_a, last_wins, ElectionConfig}
use generalised_elgamal_voti.Config
use generalised_elgamal_voti.State
use generalised_elgamal_voti.Quorum
use generalised_elgamal_voti.Params
use generalised_elgamal_voti.Envelopes.{
  BallotEnvelope, StoredBallot, DkgResultSubmission, out_of_window,
}
use generalised_elgamal_voti.Admission.{validate_ballot}
use generalised_elgamal_voti.Admission.Ranks.{number}
use generalised_elgamal_voti.WriteAuth.{
  SignatureLibrary, request_preimage, dkg_share_digest, dkg_reveal_digest, request_dst,
}
use generalised_elgamal_voti.WriteAuth
use generalised_elgamal_voti.WriteAuth.Framing.{
  request_preimage_injective, dkg_share_digest-dkg_reveal_digest,
}
use generalised_elgamal_voti.Attestation
use generalised_elgamal_voti.DataLayer.{
  Stored, DataLayer, new_data_layer, register_election, submit_dkg_result, submit_ballot,
  list_ballots, count_ballots,
}
use generalised_elgamal_voti.DataLayer
use generalised_elgamal_voti.DataLayer.Extension.{Extends}
use generalised_elgamal_voti.DataLayer.Reach.{register, dkg, vote, Reach, here, next, Reach-Kept}
use generalised_elgamal_voti.DataLayer.Tally.{list_ballots-in_window}

abbrev lib : SignatureLibrary
lib = record {
  keccak = λ bs. bs;
  sign_message = λ key digest. key;
  recover_message = λ digest signature. some signature;
  abi_bytes_list = λ bs. ok [];
  abi_proofs = λ ps. ok [];
  abi_result = λ totals indices bound. ok totals;
  abi_tally = λ aggregates admitted exclusions total scaled. ok admitted;
  ballot_json = λ ballot. ballot.pseudonym;
  config_json = λ config. config.admin_key;
}

abbrev id : Bytes
id = replicate 31 0 ++ 1 ∷ []

abbrev config : ElectionConfig
config = record {
  election_id = id;
  num_candidates = 3;
  budget = 10;
  mode = exact;
  variant = variant_a;
  weighted = true;
  duplicate_policy = last_wins;
  voting_start = 100;
  voting_end = 200;
  threshold = record { t = 2; n = 3 };
  keypers =
      record { signing_key = 1 ∷ []; url = [] }
      ∷ record { signing_key = 2 ∷ []; url = [] }
      ∷ record { signing_key = 3 ∷ []; url = [] }
      ∷ [];
  eligibility_key = [];
  result_publisher_key = [];
  gateway_keys = [];
  admin_key = 9 ∷ [];
  protocol_version = [];
  scale = 1;
  self_submit_fee_wei = pos 0;
}

abbrev stored : Stored
stored = record {
  config = config;
  is_cancelled = false;
  dkg_by_keyper = [];
  ballots = [];
  aggregate_by_keyper = [];
  shares_by_keyper = [];
  result = none;
  is_tally_stalled = false;
}

abbrev layer : Stored → DataLayer
layer st = record { elections = (id, st) ∷ []; next_id = 1; used_request_nonces = [] }

registered : register_election lib config (9 ∷ []) new_data_layer ≡ ok (id, layer stored)
unfolding register_election new_data_layer DataLayer.new_stored DataLayer.put
    WriteAuth.verify_register WriteAuth.register_digest WriteAuth.recover_digest
    WriteAuth.or_bad_signature Params.to_bytes big_endian Config.post_init
    Config.check_ballot_bounds Config.to_set Config.contains Config.is_negative
    Attestation.false_on_error
registered = refl

abbrev submission : (signature : Bytes) → DkgResultSubmission
submission signature = record {
  election_id = id;
  pk_election = 5 ∷ [];
  committee_pks = [];
  keyper_signature = signature;
}

abbrev one_key : Stored
one_key = record stored { dkg_by_keyper = (1, submission (1 ∷ [])) ∷ [] }

abbrev two_keys : Stored
two_keys = record stored {
  dkg_by_keyper = (1, submission (1 ∷ [])) ∷ (3, submission (3 ∷ [])) ∷ [];
}

first_key : submit_dkg_result lib id (5 ∷ []) [] (1 ∷ []) (layer stored) ≡ ok (layer one_key)
unfolding submit_dkg_result DataLayer.get DataLayer.put DataLayer.accept_dkg_result
    DataLayer.keyper_index_by_recovery DataLayer.or_unauthorized DataLayer.find_keyper
    WriteAuth.recover_digest WriteAuth.or_bad_signature WriteAuth.dkg_result_digest
first_key = refl

second_key : submit_dkg_result lib id (5 ∷ []) [] (3 ∷ []) (layer one_key) ≡ ok (layer two_keys)
unfolding submit_dkg_result DataLayer.get DataLayer.put DataLayer.accept_dkg_result
    DataLayer.keyper_index_by_recovery DataLayer.or_unauthorized DataLayer.find_keyper
    WriteAuth.recover_digest WriteAuth.or_bad_signature WriteAuth.dkg_result_digest
second_key = refl

abbrev ballot : BallotEnvelope
ballot = record {
  election_id = id;
  pseudonym = 4 ∷ [];
  vk = [];
  ciphertexts = [];
  zk_proof = [];
  voter_signature = [];
  attestation = record {
    election_id = id;
    pseudonym = 4 ∷ [];
    vk = [];
    weight = 5;
    signature = [];
    nonce = 1;
  };
}

abbrev voted : Stored
voted = record two_keys {
  ballots = record { sequence_number = 0; envelope = ballot; submitted_at = some 150 } ∷ [];
}

a_vote : submit_ballot lib 150 id ballot [] (layer two_keys) ≡ ok (0, layer voted)
unfolding submit_ballot DataLayer.get DataLayer.put DataLayer.accept_ballot
    DataLayer.require_gateway DataLayer.require_voting_open DataLayer.finalized_key_of
    DataLayer.voted_keys DataLayer.voted_key DataLayer.is_voting State.derive_state
    Quorum.resolve_unique Quorum.finalized Quorum.only Quorum.group_from Quorum.add_to_group
    Quorum.add Quorum.contains
a_vote = refl

threshold_valid : Config.new_threshold 2 3 ≡ ok config.threshold
unfolding Config.new_threshold
threshold_valid = refl

with_keys : Reach lib new_data_layer (layer two_keys)
with_keys =
    next
      (next (next here (register config (9 ∷ []) id threshold_valid registered))
        (dkg id (5 ∷ []) [] (1 ∷ []) first_key))
      (dkg id (5 ∷ []) [] (3 ∷ []) second_key)

with_vote : Reach lib new_data_layer (layer voted)
with_vote = next with_keys (vote 150 id ballot [] 0 a_vote)

found : lookup id (layer voted).elections ≡ some voted
found = refl

Reach-Kept_example :
    (new : Stored) × (lookup id (layer voted).elections ≡ some new) × Extends lib two_keys new
Reach-Kept_example =
    Reach-Kept lib (layer two_keys) (layer voted) with_keys
      (next here (vote 150 id ballot [] 0 a_vote)) id two_keys refl

abbrev hash : Bytes → Bytes
hash bs = bs

list_ballots-in_window_example :
    (count_ballots (layer voted) id ≡ ok 1)
    × (list_ballots (layer voted) id 0 1 ≡ ok voted.ballots)
    × Distinct (map number voted.ballots)
    × ((sb : StoredBallot) (mpk : (scalar_library 96).Point)
        → Elem sb voted.ballots
        → validate_ballot hash (scalar_library 48) (scalar_library 96) sb config mpk
          ≢ ok (some out_of_window))
list_ballots-in_window_example =
    list_ballots-in_window hash (scalar_library 48) (scalar_library 96) lib (layer voted) with_vote
      id voted found

abbrev request : Bytes
request =
    request_dst
    ++ (big_endian 4 6 ++ (text "cancel" ++ (big_endian 4 32 ++ (id ++ (big_endian 4 0 ++ [])))))

requested : request_preimage (text "cancel") id [] ≡ ok request
unfolding request_preimage Params.u32be Params.to_bytes
requested = refl

request_preimage_injective_example :
    (text "cancel" ≡ text "cancel") × (id ≡ id) × (◌≡◌ {A = Bytes} [] [])
request_preimage_injective_example =
    request_preimage_injective (text "cancel") id [] (text "cancel") id [] request requested
      requested

-- A hash with collisions.
abbrev one_digest : SignatureLibrary
one_digest = record lib { keccak = λ bs. [] }

dealt : dkg_share_digest one_digest id 1 2 7 ≡ ok []
unfolding dkg_share_digest Params.to_bytes
dealt = refl

revealed : dkg_reveal_digest one_digest id 1 2 7 ≡ ok []
unfolding dkg_reveal_digest Params.to_bytes
revealed = refl

dkg_share_digest-dkg_reveal_digest_example :
    (m : Bytes) × (m2 : Bytes) × (m ≢ m2) × (one_digest.keccak m ≡ []) × (one_digest.keccak m2 ≡ [])
dkg_share_digest-dkg_reveal_digest_example =
    dkg_share_digest-dkg_reveal_digest one_digest id id 1 1 2 2 7 7 [] dealt revealed
