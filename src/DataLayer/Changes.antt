-- ===== src/DataLayer/Changes.antt =====
-- adapters/memory.py: the changes of a stored election, as the port's contract allows them, and every
-- accepted write is one of them.
use generalised_elgamal_voti.Shared.{
  ℕ, suc, ◌+◌, ◌≤◌, ◌<◌, ◌≡◌, refl, sym, ap, ◌∙◌, arith, inl, inr, ◌⊎◌, Bool, true, false, not,
  List, [], ◌∷◌, ◌++◌, length, Option, none, some, is_some, ok, err, Fallible, immutability_error,
  voting_window_error, raise_if, ◌>>◌, ==_iff, ◌>>=◌, bind-ok, raise_if-ok, ok_injective,
  Bool-cases, ltb, ◌==◌, if◌then◌else◌,
}
use generalised_elgamal_voti.Shared.Bytes.{Bytes, encode as text}
use generalised_elgamal_voti.Shared.Keys.{same_list, number_key, bytes_key}
use generalised_elgamal_voti.Shared.Dict.{lookup, insert}
use generalised_elgamal_voti.Config.{KeyperIdentity}
use generalised_elgamal_voti.State.{StateFacts, ElectionState, voting, is_voting_open}
use generalised_elgamal_voti.State.Lifecycle.{derive_state-voting_iff}
use generalised_elgamal_voti.Envelopes.{
  BallotEnvelope, StoredBallot, DkgResultSubmission, DecryptionShareEnvelope, AggregateArtifact,
  ResultArtifact, FinalizedKey,
}
use generalised_elgamal_voti.Envelopes.Equality.{
  finalized_key_key, aggregate_key, share_key, result_key,
}
use generalised_elgamal_voti.WriteAuth.{
  SignatureLibrary, verify_request, recover_digest, dkg_result_digest, aggregate_digest_of,
  decryption_share_digest, result_digest,
}
use generalised_elgamal_voti.DataLayer.Defs.{
  Stored, find_keyper, keyper_index_by_recovery, or_unauthorized, finalized_key_of,
  canonical_aggregate, voted_key,
}
use generalised_elgamal_voti.DataLayer.Writes.{
  is_voting, require_voting_open, require_gateway, accept_cancel, accept_dkg_result, accept_ballot,
  accept_aggregate, accept_decryption_share, accept_result, accept_tally_stalled,
}

abbrev pub stored_ballot : (seq : ℕ) → BallotEnvelope → (now : ℕ) → StoredBallot
stored_ballot seq ballot now = record {
  sequence_number = seq;
  envelope = ballot;
  submitted_at = some now;
}

module _ (lib : SignatureLibrary) where
  pub data Change (st : Stored) : Stored → Type 0 where
    nothing : Change st st
    cancels : Change st (record st { is_cancelled = true })
    dkg_result :
        (idx : ℕ) (sub : DkgResultSubmission)
        → 1 ≤ idx
        → idx ≤ length st.config.keypers
        → lookup idx st.dkg_by_keyper ≡ none
        → Change st (record st { dkg_by_keyper = insert idx sub st.dkg_by_keyper })
    ballot :
        (env : BallotEnvelope) (now : ℕ) (key : FinalizedKey)
        → is_voting_open st.config now ≡ true
        → finalized_key_of st ≡ ok (some key)
        → st.is_cancelled ≡ false
        → st.result ≡ none
        → Change st
            (record st { ballots = st.ballots ++ stored_ballot (length st.ballots) env now ∷ [] })
    aggregate :
        (idx : ℕ) (a : AggregateArtifact)
        → canonical_aggregate lib st.config.election_id st ≡ ok none
        → Change st (record st { aggregate_by_keyper = insert idx a st.aggregate_by_keyper })
    share :
        (sh : DecryptionShareEnvelope) (a : AggregateArtifact)
        → canonical_aggregate lib st.config.election_id st ≡ ok (some a)
        → lookup sh.keyper_index st.shares_by_keyper ≡ none
        → Change st (record st { shares_by_keyper = insert sh.keyper_index sh st.shares_by_keyper })
    publishes : (r : ResultArtifact) → st.result ≡ none → Change st (record st { result = some r })
    stalls : (b : Bool) → Change st (record st { is_tally_stalled = b })

find_keyper-range :
    (recovered : Bytes) (i idx : ℕ) (ks : List KeyperIdentity)
    → find_keyper recovered i ks ≡ ok idx
    → (i ≤ idx) × (idx < i + length ks)
unfolding find_keyper
find_keyper-range recovered i idx [] h = absurd cc
find_keyper-range recovered i idx (k ∷ ks) h =
    elim (Bool-cases (same_list k.signing_key recovered)) [
      | inl same ↦
          let e = ok_injective i idx (sym (rw (find_keyper, same)) ∙ h) in
          (omega arith, omega arith)
      | inr other ↦
          let (a, b) =
            find_keyper-range recovered (suc i) idx ks (sym (rw (find_keyper, other)) ∙ h) in
          (omega arith, omega arith)
    ]

-- An artifact that may be written once: it stands, or there was none.
once-ok :
    {A : Type 0} (existing : Option A) (same : A → Bool) (first : Fallible Stored) (st new : Stored)
    → ◌≡◌ {A = Fallible Stored}
        (elim existing [
          | none ↦ first
          | some old ↦ if not (same old) then err immutability_error else ok st
        ])
        (ok new)
    → (st ≡ new) ⊎ ((existing ≡ none) × (first ≡ ok new))
once-ok none same first st new h = inr (refl, h)
once-ok (some old) same first st new h = inl (ground arith)

resent-ok :
    (resent : Bool) (finalized : Fallible Bool) (changed st new : Stored)
    → ◌≡◌ {A = Fallible Stored}
        (if resent
          then ok st
          else (do is_final ← finalized; raise_if is_final immutability_error; ok changed))
        (ok new)
    → (st ≡ new) ⊎ ((finalized ≡ ok false) × (changed ≡ new))
resent-ok true finalized changed st new h = inl (ok_injective st new h)
resent-ok false (ok true) changed st new h = absurd cc
resent-ok false (ok false) changed st new h = inr (refl, ok_injective changed new h)
resent-ok false (err e) changed st new h = absurd cc

is_voting→voting : (s : ElectionState) → is_voting s ≡ true → s ≡ voting
unfolding is_voting
is_voting→voting s h = ground arith

guarded-ok :
    (bad : Bool) → ◌≡◌ {A = Fallible Unit} (raise_if bad voting_window_error) (ok tt) → bad ≡ false
guarded-ok bad h = ground arith

not-false : (b : Bool) → not b ≡ false → b ≡ true
not-false b h = ground arith

pub some_of : {A : Type 0} (o : Option A) → is_some o ≡ true → (a : A) × (o ≡ some a)
some_of none h = absurd cc
some_of (some a) h = (a, refl)

pub none_of : {A : Type 0} (o : Option A) → is_some o ≡ false → o ≡ none
none_of none h = refl
none_of (some a) h = absurd cc

module _ (lib : SignatureLibrary) (st : Stored) where
  keyper_index-range :
      (digest sig : Bytes) (idx : ℕ)
      → keyper_index_by_recovery lib st.config digest sig ≡ ok idx
      → (1 ≤ idx) × (idx ≤ length st.config.keypers)
  unfolding keyper_index_by_recovery
  keyper_index-range digest sig idx h =
      let (recovered, _, found) =
        bind-ok (or_unauthorized (recover_digest lib digest sig)) _ idx h in
      let (a, b) = find_keyper-range recovered 1 idx st.config.keypers found in
      (omega arith, omega arith)

  pub cancel-ok :
      (now : ℕ) (id sig : Bytes) (new : Stored)
      → accept_cancel lib now id sig st ≡ ok new
      → record st { is_cancelled = true } ≡ new
  unfolding accept_cancel
  cancel-ok now id sig new h = ground arith

  pub dkg_result-ok :
      (id pk : Bytes) (pks : List Bytes) (sig : Bytes) (new : Stored)
      → accept_dkg_result lib id pk pks sig st ≡ ok new
      → (st ≡ new)
        ⊎ ((idx : ℕ) × (sub : DkgResultSubmission) × (1 ≤ idx)
            × (idx ≤ length st.config.keypers)
            × (lookup idx st.dkg_by_keyper ≡ none)
            × (record st { dkg_by_keyper = insert idx sub st.dkg_by_keyper } ≡ new))
  unfolding accept_dkg_result
  dkg_result-ok id pk pks sig new h =
      let (digest, _, h1) = bind-ok (dkg_result_digest lib id pk pks) _ new h in
      let (idx, found, h2) = bind-ok (keyper_index_by_recovery lib st.config digest sig) _ new h1 in
      let (low, high) = keyper_index-range digest sig idx found in
      elim (once-ok (lookup idx st.dkg_by_keyper)
        (λ old. finalized_key_key.same (voted_key old) (voted_key _)) _ st new h2) [
          | inl kept ↦ inl kept
          | inr (free, put) ↦ inr (idx, _, low, high, free, ok_injective _ new put)
        ]

  pub tally_stalled-ok :
      (now later : ℕ) (id : Bytes) (stalled : Bool) (sig : Bytes) (issued_at : ℕ) (used : Bool)
      (new : Stored)
      → accept_tally_stalled lib now later id stalled sig issued_at used st ≡ ok new
      → record st { is_tally_stalled = stalled } ≡ new
  unfolding accept_tally_stalled
  tally_stalled-ok now later id stalled sig issued_at used new h = ground arith

  pub ballot-ok :
      (now : ℕ) (env : BallotEnvelope) (sig : Bytes) (seq : ℕ) (new : Stored)
      → accept_ballot lib now env sig st ≡ ok (seq, new)
      → (seq ≡ length st.ballots)
        × (require_voting_open st now ≡ ok tt)
        × (record st { ballots = st.ballots ++ stored_ballot (length st.ballots) env now ∷ [] }
            ≡ new)
  unfolding accept_ballot
  ballot-ok now env sig seq new h =
      let (_, _, h1) = bind-ok (require_gateway lib st env sig) _ (seq, new) h in
      let (_, open_now, h2) = bind-ok (require_voting_open st now) _ (seq, new) h1 in
      let e = ok_injective _ (seq, new) h2 in (sym (ap (λ t. t.0) e), open_now, ap (λ t. t.1) e)

  pub require_voting_open-ok :
      (now : ℕ)
      → require_voting_open st now ≡ ok tt
      → (key : FinalizedKey) × (finalized_key_of st ≡ ok (some key))
        × (is_voting_open st.config now ≡ true)
        × (st.is_cancelled ≡ false)
        × (st.result ≡ none)
  unfolding require_voting_open
  require_voting_open-ok now h =
      let (key, found, h1) = bind-ok (finalized_key_of st) _ tt h in
      let facts : StateFacts = record {
        is_cancelled = st.is_cancelled;
        key_finalized = is_some key;
        result_published = is_some st.result;
        is_tally_stalled = false;
      } in
      let (running, unpublished, final, open_now) =
        (derive_state-voting_iff st.config facts now).0
          (is_voting→voting _ (not-false _ (guarded-ok _ h1))) in
      let (k, there) = some_of key final in
      (k, found ∙ ap ok there, open_now, running, none_of st.result unpublished)

  pub aggregate-ok :
      (now : ℕ) (id : Bytes) (a : AggregateArtifact) (sig : Bytes) (finalized : Fallible Bool)
      (new : Stored)
      → accept_aggregate lib now id a sig finalized st ≡ ok new
      → (st ≡ new)
        ⊎ ((idx : ℕ) × (finalized ≡ ok false)
            × (record st { aggregate_by_keyper = insert idx a st.aggregate_by_keyper } ≡ new))
  unfolding accept_aggregate
  aggregate-ok now id a sig finalized new h =
      let (_, h1) = raise_if-ok (ltb now st.config.voting_end) _ _ new h in
      let (digest, _, h2) = bind-ok (aggregate_digest_of lib id a) _ new h1 in
      let (idx, found, h3) = bind-ok (keyper_index_by_recovery lib st.config digest sig) _ new h2 in
      elim (resent-ok _ finalized _ st new h3) [
        | inl kept ↦ inl kept
        | inr (open_still, put) ↦ inr (idx, open_still, put)
      ]

  pub share-ok :
      (now : ℕ) (id : Bytes) (sh : DecryptionShareEnvelope) (sig : Bytes)
      (finalized : Fallible Bool) (new : Stored)
      → accept_decryption_share lib now id sh sig finalized st ≡ ok new
      → (st ≡ new)
        ⊎ ((finalized ≡ ok true)
            × (lookup sh.keyper_index st.shares_by_keyper ≡ none)
            × (record st { shares_by_keyper = insert sh.keyper_index sh st.shares_by_keyper }
                ≡ new))
  unfolding accept_decryption_share
  share-ok now id sh sig finalized new h =
      let (_, h1) = raise_if-ok (ltb now st.config.voting_end) _ _ new h in
      let (is_final, f, h2) = bind-ok finalized _ new h1 in
      let (yes_final, h3) = raise_if-ok (not is_final) _ _ new h2 in
      let (digest, _, h4) = bind-ok (decryption_share_digest lib id _ _) _ new h3 in
      let (idx, found, h5) = bind-ok (keyper_index_by_recovery lib st.config digest sig) _ new h4 in
      let (same, h6) = raise_if-ok (not (idx == sh.keyper_index)) _ _ new h5 in
      let index : idx ≡ sh.keyper_index =
        (==_iff idx sh.keyper_index).0 (not-false (idx == sh.keyper_index) same) in
      elim (once-ok (lookup idx st.shares_by_keyper) (λ old. share_key.same old sh) _ st new h6) [
        | inl kept ↦ inl kept
        | inr (free, put) ↦ inr (
          f ∙ ap ok (not-false is_final yes_final),
          ap (λ (i : ℕ). lookup i st.shares_by_keyper) (sym index) ∙ free,
          ap (λ (i : ℕ). record st { shares_by_keyper = insert i sh st.shares_by_keyper })
                (sym index)
              ∙ ok_injective _ new put,
        )
      ]

  pub result-ok :
      (id : Bytes) (r : ResultArtifact) (sig : Bytes) (new : Stored)
      → accept_result lib id r sig st ≡ ok new
      → (st ≡ new) ⊎ ((st.result ≡ none) × (record st { result = some r } ≡ new))
  unfolding accept_result
  result-ok id r sig new h =
      let (payload, _, h1) = bind-ok (result_digest lib id r) _ new h in
      let (_, h2) =
        raise_if-ok
          (not (verify_request lib st.config.result_publisher_key sig (text "result") id payload)) _
          _ new h1 in
      elim (once-ok st.result (λ old. result_key.same old r) _ st new h2) [
        | inl kept ↦ inl kept
        | inr (free, put) ↦ inr (free, ok_injective _ new put)
      ]
