-- ===== src/Envelopes.antt =====
-- envelopes/types.py: the artifacts, and ports/data_layer.py: the finalized key.
use generalised_elgamal_voti.Shared.{ℕ, List, Option}
use generalised_elgamal_voti.Shared.Bytes.{Bytes}
use generalised_elgamal_voti.Attestation.{Attestation}
pub mod Equality

pub data ExclusionReason : Type 0 where
  invalid_proof invalid_signature invalid_attestation duplicate_pseudonym malformed out_of_window :
      ExclusionReason

pub record Ciphertext : Type 0 where
  pub c1 : Bytes
  pub c2 : Bytes

pub record BallotEnvelope : Type 0 where
  pub election_id : Bytes
  pub pseudonym : Bytes
  pub vk : Bytes
  pub ciphertexts : List Ciphertext
  pub zk_proof : Bytes
  pub voter_signature : Bytes
  pub attestation : Attestation

pub record StoredBallot : Type 0 where
  pub sequence_number : ℕ
  pub envelope : BallotEnvelope
  pub submitted_at : Option ℕ

pub record Exclusion : Type 0 where
  pub sequence_number : ℕ
  pub reason : ExclusionReason

pub record DkgResultSubmission : Type 0 where
  pub election_id : Bytes
  pub pk_election : Bytes
  pub committee_pks : List Bytes
  pub keyper_signature : Bytes

pub record DecryptionShareEntry : Type 0 where
  pub sigma : Bytes
  pub proof : Bytes

pub record DecryptionShareEnvelope : Type 0 where
  pub election_id : Bytes
  pub keyper_index : ℕ
  pub entries : List DecryptionShareEntry

pub record AggregateArtifact : Type 0 where
  pub election_id : Bytes
  pub aggregates : List Ciphertext
  pub admitted : List ℕ
  pub exclusions : List Exclusion
  pub total_admitted_weight : ℕ
  pub total_scaled_weight : ℕ

pub record ResultArtifact : Type 0 where
  pub election_id : Bytes
  pub totals : List ℕ
  pub keyper_indices : List ℕ
  pub bsgs_bound : ℕ

pub record FinalizedKey : Type 0 where
  pub pk_election : Bytes
  pub committee_pks : List Bytes
