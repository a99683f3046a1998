-- ===== src/DataLayer/Extension.antt =====
-- adapters/memory.py: what no change takes away from a stored election.
use generalised_elgamal_voti.Shared.{
  ℕ, suc, ◌≤◌, ◌≡◌, refl, sym, ap, ◌∙◌, subst, arith, inl, inr, ◌↔◌, Bool, true, List, [], ◌∷◌,
  ◌++◌, length, append_assoc, append-nil, Distinct, Option, none, some, ok, ok_injective,
  Bool-cases, ◌==◌, ==_iff,
}
use generalised_elgamal_voti.Shared.Keys.{number_key}
use generalised_elgamal_voti.Shared.Dict.{Dict, keys, lookup, insert, lookup-insert_ne}
use generalised_elgamal_voti.Quorum.Groups.{votes}
use generalised_elgamal_voti.Quorum.Agreement.{resolve_unique-votes_iff, group_from-resolve_unique}
use generalised_elgamal_voti.Envelopes.{
  StoredBallot, DkgResultSubmission, DecryptionShareEnvelope, AggregateArtifact, ResultArtifact,
  FinalizedKey,
}
use generalised_elgamal_voti.Envelopes.Equality.{finalized_key_key}
use generalised_elgamal_voti.WriteAuth.{SignatureLibrary}
use generalised_elgamal_voti.DataLayer.Defs.{
  Stored, voted_key, voted_keys, finalized_key_of, canonical_aggregate,
}
use generalised_elgamal_voti.DataLayer.Invariant.{WellFormed, Change-WellFormed}
use generalised_elgamal_voti.DataLayer.Changes.{
  Change, nothing, cancels, dkg_result, ballot, aggregate, share, publishes, stalls, stored_ballot,
}
use generalised_elgamal_voti.DataLayer.Committee.{length-InCommittee, votes-insert}

-- The later state keeps the configuration, the ballots in front of the new ones, what every keyper
-- submitted, the result, the finalized key and the canonical aggregate.
pub record Extends (lib : SignatureLibrary) (st new : Stored) : Type 0 where
  pub same_config : st.config ≡ new.config
  pub later : List StoredBallot
  pub ballots_stand : new.ballots ≡ st.ballots ++ later
  pub dkg_stands :
      (i : ℕ) (s : DkgResultSubmission)
      → lookup i st.dkg_by_keyper ≡ some s
      → lookup i new.dkg_by_keyper ≡ some s
  pub shares_stand :
      (i : ℕ) (s : DecryptionShareEnvelope)
      → lookup i st.shares_by_keyper ≡ some s
      → lookup i new.shares_by_keyper ≡ some s
  pub result_stands : (r : ResultArtifact) → st.result ≡ some r → new.result ≡ some r
  pub key_stands :
      (k : FinalizedKey) → finalized_key_of st ≡ ok (some k) → finalized_key_of new ≡ ok (some k)
  pub aggregate_stands :
      (a : AggregateArtifact)
      → canonical_aggregate lib st.config.election_id st ≡ ok (some a)
      → canonical_aggregate lib new.config.election_id new ≡ ok (some a)

something : {A : Type 0} (a : A) → ¬ (◌≡◌ {A = Option A} (some a) none)
something a e = cc

-- An entry stands when another key is added.
lookup-insert_new :
    {V : Type 0} (k i : ℕ) (v s : V) (d : Dict ℕ V)
    → lookup k d ≡ none
    → lookup i d ≡ some s
    → lookup i (insert k v d) ≡ some s
lookup-insert_new k i v s d free there = elim (Bool-cases (i == k)) [
  | inl same ↦
      absurd (something s (sym there ∙ ap (λ (j : ℕ). lookup j d) ((==_iff i k).0 same) ∙ free))
  | inr other ↦ lookup-insert_ne k i v d other ∙ there
]

keys-voted_keys : (d : Dict ℕ DkgResultSubmission) → keys (voted_keys d) ≡ keys d
unfolding voted_keys
keys-voted_keys [] = refl
keys-voted_keys ((i, s) ∷ d) = ap (◌∷◌ i) (keys-voted_keys d)

length-keys : {V : Type 0} (d : Dict ℕ V) → length (keys d) ≡ length d
length-keys [] = refl
length-keys (f ∷ d) = ap suc (length-keys d)

voted_keys-insert :
    (k : ℕ) (s : DkgResultSubmission) (d : Dict ℕ DkgResultSubmission)
    → voted_keys (insert k s d) ≡ insert k (voted_key s) (voted_keys d)
unfolding voted_keys
voted_keys-insert k s [] = refl
voted_keys-insert k s ((i, t) ∷ d) = elim (Bool-cases (k == i)) [
  | inl same ↦ rw same
  | inr other ↦ rw (other, voted_keys-insert k s d)
]

lookup-voted_keys :
    (k : ℕ) (d : Dict ℕ DkgResultSubmission) → lookup k d ≡ none → lookup k (voted_keys d) ≡ none
unfolding voted_keys
lookup-voted_keys k [] h = refl
lookup-voted_keys k ((i, t) ∷ d) h = elim (Bool-cases (k == i)) [
  | inl same ↦ absurd (something t (sym (rw same refl) ∙ h))
  | inr other ↦ rw other (lookup-voted_keys k d (sym (rw other refl) ∙ h))
]

module _ (st : Stored) (wf : WellFormed st) where
  few_submissions : length (voted_keys st.dkg_by_keyper) ≤ length st.config.keypers
  few_submissions = omega (
    arith,
    length-InCommittee (length st.config.keypers) (keys st.dkg_by_keyper) wf.indices wf.committee,
    length-keys (voted_keys st.dkg_by_keyper),
    ap length (keys-voted_keys st.dkg_by_keyper),
  )

  -- The submissions are never in conflict.
  pub finalized_key_of-ok : (o : Option FinalizedKey) × (finalized_key_of st ≡ ok o)
  unfolding finalized_key_of
  finalized_key_of-ok =
      group_from-resolve_unique (voted_keys st.dkg_by_keyper) (length st.config.keypers)
        st.config.threshold.t few_submissions wf.majority

  -- The finalized key is the one that a quorum voted for.
  finalized_key_of_iff :
      (k : FinalizedKey)
      → (finalized_key_of st ≡ ok (some k))
        ↔ (st.config.threshold.t ≤ votes k (voted_keys st.dkg_by_keyper))
  unfolding finalized_key_of
  finalized_key_of_iff k =
      resolve_unique-votes_iff (voted_keys st.dkg_by_keyper) (length st.config.keypers)
        st.config.threshold.t few_submissions wf.majority k
        (subst Distinct (sym (keys-voted_keys st.dkg_by_keyper)) wf.indices)

module _ (lib : SignatureLibrary) where
  pub Extends-refl : (st : Stored) → Extends lib st st
  Extends-refl st = record {
    same_config = refl;
    later = [];
    ballots_stand = sym (append-nil st.ballots);
    dkg_stands = λ i s h. h;
    shares_stand = λ i s h. h;
    result_stands = λ r h. h;
    key_stands = λ k h. h;
    aggregate_stands = λ a h. h;
  }

  pub Extends-trans : {a b c : Stored} → Extends lib a b → Extends lib b c → Extends lib a c
  Extends-trans {a} {b} {c} f g = record {
    same_config = f.same_config ∙ g.same_config;
    later = f.later ++ g.later;
    ballots_stand =
        g.ballots_stand
        ∙ ap (λ (l : List StoredBallot). l ++ g.later) f.ballots_stand
        ∙ append_assoc a.ballots f.later g.later;
    dkg_stands = λ i s h. g.dkg_stands i s (f.dkg_stands i s h);
    shares_stand = λ i s h. g.shares_stand i s (f.shares_stand i s h);
    result_stands = λ r h. g.result_stands r (f.result_stands r h);
    key_stands = λ k h. g.key_stands k (f.key_stands k h);
    aggregate_stands = λ x h. g.aggregate_stands x (f.aggregate_stands x h);
  }

  -- A new submission takes no finalized key away.
  key-dkg_result :
      (st : Stored) (idx : ℕ) (sub : DkgResultSubmission) (k : FinalizedKey)
      → WellFormed st
      → 1 ≤ idx
      → idx ≤ length st.config.keypers
      → lookup idx st.dkg_by_keyper ≡ none
      → finalized_key_of st ≡ ok (some k)
      → finalized_key_of (record st { dkg_by_keyper = insert idx sub st.dkg_by_keyper })
        ≡ ok (some k)
  key-dkg_result st idx sub k wf low high free h =
      let new : Stored = record st { dkg_by_keyper = insert idx sub st.dkg_by_keyper } in
      let more =
        votes-insert k (voted_key sub) idx (voted_keys st.dkg_by_keyper)
          (lookup-voted_keys idx st.dkg_by_keyper free) in
      let same : votes k (voted_keys (insert idx sub st.dkg_by_keyper))
          ≡ votes k (insert idx (voted_key sub) (voted_keys st.dkg_by_keyper)) =
        ap (votes k) (voted_keys-insert idx sub st.dkg_by_keyper) in
      (finalized_key_of_iff new (Change-WellFormed lib (dkg_result idx sub low high free) wf) k).1
        (omega (arith, (finalized_key_of_iff st wf k).0 h, more, same))

  -- The flags and the result change, and a published result stands.
  flags-Extends :
      (st : Stored) (c b : Bool) (result : Option ResultArtifact)
      → ((r : ResultArtifact) → st.result ≡ some r → result ≡ some r)
      → Extends lib st (record st { is_cancelled = c; result = result; is_tally_stalled = b })
  unfolding finalized_key_of canonical_aggregate
  flags-Extends st c b result stands = record {
    same_config = refl;
    later = [];
    ballots_stand = sym (append-nil st.ballots);
    dkg_stands = λ i s h. h;
    shares_stand = λ i s h. h;
    result_stands = stands;
    key_stands = λ k h. h;
    aggregate_stands = λ a h. h;
  }

  -- No change takes away what is final.
  pub Change-Extends : {st new : Stored} → Change lib st new → WellFormed st → Extends lib st new
  unfolding finalized_key_of canonical_aggregate
  Change-Extends {st} nothing wf = Extends-refl st
  Change-Extends {st} cancels wf = flags-Extends st true st.is_tally_stalled st.result (λ r h. h)
  Change-Extends {st} (stalls b) wf = flags-Extends st st.is_cancelled b st.result (λ r h. h)
  Change-Extends {st} (publishes r free) wf =
      flags-Extends st st.is_cancelled st.is_tally_stalled (some r)
        (λ old h. absurd (something old (sym h ∙ free)))
  Change-Extends {st} (dkg_result idx sub low high free) wf = record {
    same_config = refl;
    later = [];
    ballots_stand = sym (append-nil st.ballots);
    dkg_stands = λ i s h. lookup-insert_new idx i sub s st.dkg_by_keyper free h;
    shares_stand = λ i s h. h;
    result_stands = λ r h. h;
    key_stands = λ k h. key-dkg_result st idx sub k wf low high free h;
    aggregate_stands = λ a h. h;
  }
  Change-Extends {st} (ballot env now key open_now final running unpublished) wf = record {
    same_config = refl;
    later = stored_ballot (length st.ballots) env now ∷ [];
    ballots_stand = refl;
    dkg_stands = λ i s h. h;
    shares_stand = λ i s h. h;
    result_stands = λ r h. h;
    key_stands = λ k h. h;
    aggregate_stands = λ a h. h;
  }
  Change-Extends {st} (aggregate idx a open_still) wf = record {
    same_config = refl;
    later = [];
    ballots_stand = sym (append-nil st.ballots);
    dkg_stands = λ i s h. h;
    shares_stand = λ i s h. h;
    result_stands = λ r h. h;
    key_stands = λ k h. h;
    aggregate_stands = λ b h. absurd (something b (ok_injective _ _ (sym h ∙ open_still)));
  }
  Change-Extends {st} (share sh a final free) wf = record {
    same_config = refl;
    later = [];
    ballots_stand = sym (append-nil st.ballots);
    dkg_stands = λ i s h. h;
    shares_stand = λ i s h. lookup-insert_new sh.keyper_index i sh s st.shares_by_keyper free h;
    result_stands = λ r h. h;
    key_stands = λ k h. h;
    aggregate_stands = λ b h. h;
  }
