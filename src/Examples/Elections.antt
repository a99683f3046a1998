-- ===== src/Examples/Elections.antt =====
-- An election with three keypers, its lifecycle, its quorum and the admission of three ballots.
use mathlib.Core.List.{Perm}
use generalised_elgamal_voti.Shared.{
  ℕ, ◌*◌, ◌≤◌, ◌<◌, ◌≡◌, ◌↔◌, refl, arith, inl, true, false, List, [], ◌∷◌, ◌++◌, map, Elem,
  Distinct, Option, none, some, ok, ◌==◌, if◌then◌else◌,
}
use generalised_elgamal_voti.Shared.Bytes.{Bytes}
use generalised_elgamal_voti.Shared.Keys.{number_key}
use generalised_elgamal_voti.Shared.Dict.{Dict, keys}
use generalised_elgamal_voti.Shared.Int.{pos}
use generalised_elgamal_voti.Config.{
  exact, variant_a, last_wins, new_threshold, ElectionConfig, post_init,
}
use generalised_elgamal_voti.Config.Checks.{IsValid, post_init_iff, new_threshold_iff}
use generalised_elgamal_voti.State.{StateFacts, derive_state, is_voting_open, voting}
use generalised_elgamal_voti.State.Lifecycle.{phase, derive_state_forward, derive_state-voting_iff}
use generalised_elgamal_voti.Quorum.{resolve_unique, group_from}
use generalised_elgamal_voti.Quorum.Groups.{votes}
use generalised_elgamal_voti.Quorum.Agreement.{group_from-resolve_unique, resolve_unique-votes_iff}
use generalised_elgamal_voti.Envelopes.{ExclusionReason, malformed, StoredBallot}
use generalised_elgamal_voti.Admission.{rank, beats, AdmittedBallot, AdmissionResult, admission}
use generalised_elgamal_voti.Admission.{validate_ballot, admit}
use generalised_elgamal_voti.Admission.Screening.{AllAnswered, answers, admit_iff}
use generalised_elgamal_voti.Admission.Ranks.{number, pseudonym}
use generalised_elgamal_voti.Admission.Decisions.{admission-admitted_iff}
use generalised_elgamal_voti.Points.{PointLibrary, HasCodec, g2_from_compressed}
use generalised_elgamal_voti.Points.Codec.{from_compressed-bytes}
use generalised_elgamal_voti.Params.{curve_order}
use generalised_elgamal_voti.Points.Scalars.{Scalar, reduce, scalar_library, scalar_codec}
use generalised_elgamal_voti.Admission.Partition.{
  admitted_numbers, excluded_numbers, admission-Perm,
}

abbrev config : ElectionConfig
config = record {
  election_id = 1 ∷ [];
  num_candidates = 3;
  budget = 10;
  mode = exact;
  variant = variant_a;
  weighted = true;
  duplicate_policy = last_wins;
  voting_start = 100;
  voting_end = 200;
  threshold = record { t = 2; n = 3 };
  keypers =
      record { signing_key = 1 ∷ []; url = [] }
      ∷ record { signing_key = 2 ∷ []; url = [] }
      ∷ record { signing_key = 3 ∷ []; url = [] }
      ∷ [];
  eligibility_key = [];
  result_publisher_key = [];
  gateway_keys = [];
  admin_key = [];
  protocol_version = [];
  scale = 1;
  self_submit_fee_wei = pos 0;
}

abbrev facts : StateFacts
facts = record {
  is_cancelled = false;
  key_finalized = true;
  result_published = false;
  is_tally_stalled = false;
}

abbrev done : StateFacts
done = record facts { result_published = true }

abbrev submissions : Dict ℕ ℕ
submissions = (1, 7) ∷ (2, 8) ∷ (3, 7) ∷ []

keypers-Distinct : Distinct (keys submissions)
keypers-Distinct = (λ m. ground arith, (λ m. ground arith, (λ m. m, tt)))

abbrev ballot : (sequence_number : ℕ) (pseudonym : Bytes) (nonce : ℕ) → StoredBallot
ballot sequence_number pseudonym nonce = record {
  sequence_number = sequence_number;
  envelope = record {
    election_id = 1 ∷ [];
    pseudonym = pseudonym;
    vk = [];
    ciphertexts = [];
    zk_proof = [];
    voter_signature = [];
    attestation = record {
      election_id = 1 ∷ [];
      pseudonym = pseudonym;
      vk = [];
      weight = 5;
      signature = [];
      nonce = nonce;
    };
  };
  submitted_at = some 150;
}

abbrev ballots : List StoredBallot
ballots = ballot 0 (4 ∷ []) 2 ∷ ballot 1 (4 ∷ []) 1 ∷ ballot 2 (5 ∷ []) 1 ∷ ballot 3 (6 ∷ []) 1 ∷ []

abbrev validate : StoredBallot → Option ExclusionReason
validate sb = if sb.sequence_number == 2 then some malformed else none

run :
    (admitted_numbers (admission validate last_wins ballots).admitted ≡ 0 ∷ 3 ∷ [])
    × (excluded_numbers (admission validate last_wins ballots).exclusions ≡ 1 ∷ 2 ∷ [])
unfolding admission admitted_numbers excluded_numbers
run = (refl, refl)

numbers-Distinct : Distinct (map number ballots)
numbers-Distinct = (λ m. ground arith, (λ m. ground arith, (λ m. ground arith, (λ m. m, tt))))

abbrev result : AdmissionResult
result = admission validate last_wins ballots

abbrev first_ballot : StoredBallot
first_ballot = ballot 0 (4 ∷ []) 2

admission-admitted_iff_example :
    Elem 0 (map (λ (a : AdmittedBallot). a.sequence_number) result.admitted) ↔ (
      (validate first_ballot ≡ none)
      × ((o : StoredBallot)
          → Elem o ballots
          → validate o ≡ none
          → pseudonym o ≡ 4 ∷ []
          → beats last_wins (rank o) (rank first_ballot) ≡ false))
admission-admitted_iff_example =
    admission-admitted_iff validate last_wins ballots numbers-Distinct first_ballot (inl refl)

admission-Perm_example :
    Perm
      (admitted_numbers result.admitted ++ excluded_numbers result.exclusions)
      (0 ∷ 1 ∷ 2 ∷ 3 ∷ [])
admission-Perm_example = admission-Perm validate last_wins ballots

resolve_unique-votes_iff_example :
    (resolve_unique (group_from [] submissions) 2 ≡ ok (some 7)) ↔ (2 ≤ votes 7 submissions)
resolve_unique-votes_iff_example =
    resolve_unique-votes_iff submissions 3 2 (omega arith) (omega arith) 7 keypers-Distinct

group_from-resolve_unique_example :
    (o : Option ℕ) × (resolve_unique (group_from [] submissions) 2 ≡ ok o)
group_from-resolve_unique_example =
    group_from-resolve_unique submissions 3 2 (omega arith) (omega arith)

agreed : resolve_unique (group_from [] submissions) 2 ≡ ok (some 7)
unfolding resolve_unique group_from
agreed = refl

post_init_iff_example : (post_init config ≡ ok tt) ↔ IsValid config
post_init_iff_example = post_init_iff config

new_threshold_iff_example :
    (new_threshold 2 3 ≡ ok (record { t = 2; n = 3 })) ↔ ((1 ≤ 2) × (2 ≤ 3) × (3 < 2 * 2))
new_threshold_iff_example = new_threshold_iff 2 3

derive_state-voting_iff_example :
    (derive_state config facts 150 ≡ voting)
    ↔ ((false ≡ false) × (false ≡ false) × (true ≡ true) × (is_voting_open config 150 ≡ true))
derive_state-voting_iff_example = derive_state-voting_iff config facts 150

derive_state_forward_example :
    phase (derive_state config facts 150) ≤ phase (derive_state config done 250)
derive_state_forward_example =
    derive_state_forward config facts done 150 250 (omega arith) (λ h. cc) (λ h. cc) (λ h. refl)
      (λ h. cc)

abbrev group : ℕ → PointLibrary
group = scalar_library

abbrev hash : Bytes → Bytes
hash bs = bs

codec : HasCodec (group 96) 96
unfolding curve_order
codec = scalar_codec 96 (omega arith)

abbrev mpk : Scalar
mpk = reduce 5

abbrev mpk_bytes : Bytes
mpk_bytes = (group 96).to_compressed_bytes mpk

decoded : g2_from_compressed (group 96) mpk_bytes ≡ ok mpk
unfolding g2_from_compressed
decoded = from_compressed-bytes (group 96) 96 codec mpk

admit_iff_example : (admit hash (group 48) (group 96) ballots config mpk_bytes ≡ ok result) ↔ (
    AllAnswered (λ sb. validate_ballot hash (group 48) (group 96) sb config mpk) ballots
    × (admission
          (answers (λ sb. validate_ballot hash (group 48) (group 96) sb config mpk))
          last_wins
          ballots
        ≡ result))
admit_iff_example = admit_iff hash (group 48) (group 96) ballots config mpk_bytes mpk decoded result
