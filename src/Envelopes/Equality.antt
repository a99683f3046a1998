-- ===== src/Envelopes/Equality.antt =====
-- envelopes/types.py: `==` of the artifacts, field by field.
use generalised_elgamal_voti.Shared.{ℕ, ◌≡◌, refl, sym, ap, ◌∙◌, ◌==◌, if◌then◌else◌}
use generalised_elgamal_voti.Shared.Keys.{
  KeyType, pair_key, key_by, list_key, number_key, bytes_key,
}
use generalised_elgamal_voti.Envelopes.{
  ExclusionReason, invalid_proof, invalid_signature, invalid_attestation, duplicate_pseudonym,
  malformed, out_of_window, Ciphertext, Exclusion, DecryptionShareEntry, DecryptionShareEnvelope,
  AggregateArtifact, ResultArtifact, FinalizedKey,
}

-- `_EXCLUSION_CODE` of core/write_auth.py: the position in the enum.
unfoldable pub exclusion_code : ExclusionReason → ℕ
exclusion_code invalid_proof = 0
exclusion_code invalid_signature = 1
exclusion_code invalid_attestation = 2
exclusion_code duplicate_pseudonym = 3
exclusion_code malformed = 4
exclusion_code out_of_window = 5

pub exclusion_reason : ℕ → ExclusionReason
exclusion_reason n =
    if n == 0
    then invalid_proof
    else if n == 1
    then invalid_signature
    else if n == 2
    then invalid_attestation
    else if n == 3
    then duplicate_pseudonym
    else if n == 4
    then malformed
    else out_of_window

pub reason_code : (r : ExclusionReason) → exclusion_reason (exclusion_code r) ≡ r
unfolding exclusion_code exclusion_reason
reason_code invalid_proof = refl
reason_code invalid_signature = refl
reason_code invalid_attestation = refl
reason_code duplicate_pseudonym = refl
reason_code malformed = refl
reason_code out_of_window = refl

instance abbrev pub reason_key : KeyType ExclusionReason
reason_key =
    key_by number_key exclusion_code
      (λ a b e. sym (reason_code a) ∙ ap exclusion_reason e ∙ reason_code b)

instance abbrev pub ciphertext_key : KeyType Ciphertext
ciphertext_key =
    key_by (pair_key bytes_key bytes_key) (λ (c : Ciphertext). (c.c1, c.c2))
      (λ a b e. ap (λ t. record { c1 = t.0; c2 = t.1 }) e)

instance abbrev pub exclusion_key : KeyType Exclusion
exclusion_key =
    key_by (pair_key number_key reason_key) (λ (x : Exclusion). (x.sequence_number, x.reason))
      (λ a b e. ap (λ t. record { sequence_number = t.0; reason = t.1 }) e)

instance abbrev pub entry_key : KeyType DecryptionShareEntry
entry_key =
    key_by (pair_key bytes_key bytes_key) (λ (x : DecryptionShareEntry). (x.sigma, x.proof))
      (λ a b e. ap (λ t. record { sigma = t.0; proof = t.1 }) e)

instance abbrev pub share_key : KeyType DecryptionShareEnvelope
share_key =
    key_by (pair_key bytes_key (pair_key number_key (list_key entry_key)))
      (λ (x : DecryptionShareEnvelope). (x.election_id, (x.keyper_index, x.entries)))
      (λ a b e. ap (λ t. record { election_id = t.0; keyper_index = t.1.0; entries = t.1.1 }) e)

instance abbrev pub aggregate_key : KeyType AggregateArtifact
aggregate_key =
    key_by
      (pair_key bytes_key (
        pair_key (list_key ciphertext_key) (
          pair_key (list_key number_key)
            (pair_key (list_key exclusion_key) (pair_key number_key number_key)))))
      (λ (x : AggregateArtifact). (
        x.election_id,
        (
          x.aggregates,
          (x.admitted, (x.exclusions, (x.total_admitted_weight, x.total_scaled_weight))),
        ),
      ))
      (λ a b e.
        ap
          (λ t. record {
            election_id = t.0;
            aggregates = t.1.0;
            admitted = t.1.1.0;
            exclusions = t.1.1.1.0;
            total_admitted_weight = t.1.1.1.1.0;
            total_scaled_weight = t.1.1.1.1.1;
          })
          e)

instance abbrev pub result_key : KeyType ResultArtifact
result_key =
    key_by
      (pair_key bytes_key
        (pair_key (list_key number_key) (pair_key (list_key number_key) number_key)))
      (λ (x : ResultArtifact). (x.election_id, (x.totals, (x.keyper_indices, x.bsgs_bound))))
      (λ a b e.
        ap
          (λ t. record {
            election_id = t.0;
            totals = t.1.0;
            keyper_indices = t.1.1.0;
            bsgs_bound = t.1.1.1;
          })
          e)

-- The tuple `(pk_election, committee_pks)` that submissions are compared by.
instance abbrev pub finalized_key_key : KeyType FinalizedKey
finalized_key_key =
    key_by (pair_key bytes_key (list_key bytes_key))
      (λ (x : FinalizedKey). (x.pk_election, x.committee_pks))
      (λ a b e. ap (λ t. record { pk_election = t.0; committee_pks = t.1 }) e)
