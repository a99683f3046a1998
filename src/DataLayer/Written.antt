-- ===== src/DataLayer/Written.antt =====
-- adapters/memory.py: every accepted write of the layer changes one election.
use generalised_elgamal_voti.Shared.{
  ℕ, ◌≡◌, refl, sym, ap, ◌∙◌, subst, inl, inr, Bool, true, false, List, Option, some, is_some, ok,
  err, key_error, Fallible, bind-ok, ok_injective, Option-cases,
}
use generalised_elgamal_voti.Shared.Bytes.{Bytes}
use generalised_elgamal_voti.Shared.Keys.{number_key, bytes_key}
use generalised_elgamal_voti.Shared.Dict.{lookup, insert}
use generalised_elgamal_voti.Envelopes.{
  BallotEnvelope, DecryptionShareEnvelope, AggregateArtifact, ResultArtifact,
}
use generalised_elgamal_voti.WriteAuth.{SignatureLibrary}
use generalised_elgamal_voti.DataLayer.Defs.{Stored, canonical_aggregate}
use generalised_elgamal_voti.DataLayer.Writes.{
  accept_cancel, accept_dkg_result, accept_ballot, accept_aggregate, accept_decryption_share,
  accept_result, accept_tally_stalled, stall_op,
}
use generalised_elgamal_voti.DataLayer.Layer.{
  DataLayer, get, put, cancel_election, submit_dkg_result, submit_ballot, submit_aggregate,
  submit_decryption_share, publish_result, set_tally_stalled, is_used, aggregate_finalized,
  get_aggregate,
}
use generalised_elgamal_voti.DataLayer.Changes.{
  Change, nothing, cancels, dkg_result, ballot, aggregate, share, publishes, stalls, cancel-ok,
  dkg_result-ok, ballot-ok, require_voting_open-ok, aggregate-ok, share-ok, result-ok,
  tally_stalled-ok, none_of, some_of,
}

module _ (lib : SignatureLibrary) where
  -- One election changed, and nothing else but the used requests.
  pub record Written (d d2 : DataLayer) : Type 0 where
    pub id : Bytes
    pub st : Stored
    pub new : Stored
    pub stored : lookup id d.elections ≡ some st
    pub change : Change lib st new
    pub elections : insert id new d.elections ≡ d2.elections
    pub same_next : d.next_id ≡ d2.next_id

  get-ok :
      (d : DataLayer) (id : Bytes) (st : Stored)
      → get d id ≡ ok st
      → lookup id d.elections ≡ some st
  unfolding get
  get-ok d id st h = elim (Option-cases (lookup id d.elections)) [
    | inl missing ↦ absurd (clash (sym (rw (missing, get) refl) ∙ h))
    | inr (found, e) ↦ e ∙ ap some (ok_injective found st (sym (rw (e, get) refl) ∙ h))
  ]
    where
      clash : ◌≡◌ {A = Fallible Stored} (err key_error) (ok st) → ⊥
      clash e = cc

  written :
      (d d2 : DataLayer) (id : Bytes) (st new : Stored)
      → get d id ≡ ok st
      → Change lib st new
      → put id new d ≡ d2
      → Written d d2
  unfolding put
  written d d2 id st new found c e = record {
    id = id;
    st = st;
    new = new;
    stored = get-ok d id st found;
    change = c;
    elections = ap (λ (x : DataLayer). x.elections) e;
    same_next = ap (λ (x : DataLayer). x.next_id) e;
  }

  pub cancel-Written :
      (d d2 : DataLayer) (now : ℕ) (id sig : Bytes)
      → cancel_election lib now id sig d ≡ ok d2
      → Written d d2
  unfolding cancel_election
  cancel-Written d d2 now id sig h =
      let (st, found, h1) = bind-ok (get d id) _ d2 h in
      let (new, accepted, h2) = bind-ok (accept_cancel lib now id sig st) _ d2 h1 in
      written d d2 id st new found
        (subst (Change lib st) (cancel-ok lib st now id sig new accepted) cancels)
        (ok_injective _ d2 h2)

  pub dkg-Written :
      (d d2 : DataLayer) (id pk : Bytes) (pks : List Bytes) (sig : Bytes)
      → submit_dkg_result lib id pk pks sig d ≡ ok d2
      → Written d d2
  unfolding submit_dkg_result
  dkg-Written d d2 id pk pks sig h =
      let (st, found, h1) = bind-ok (get d id) _ d2 h in
      let (new, accepted, h2) = bind-ok (accept_dkg_result lib id pk pks sig st) _ d2 h1 in
      let change : Change lib st new = elim (dkg_result-ok lib st id pk pks sig new accepted) [
        | inl same ↦ subst (Change lib st) same nothing
        | inr (idx, sub, low, high, free, e) ↦
            subst (Change lib st) e (dkg_result idx sub low high free)
      ] in
      written d d2 id st new found change (ok_injective _ d2 h2)

  pub vote-Written :
      (d d2 : DataLayer) (now : ℕ) (id : Bytes) (env : BallotEnvelope) (sig : Bytes) (seq : ℕ)
      → submit_ballot lib now id env sig d ≡ ok (seq, d2)
      → Written d d2
  unfolding submit_ballot
  vote-Written d d2 now id env sig seq h =
      let (st, found, h1) = bind-ok (get d id) _ (seq, d2) h in
      let (accepted_seq, accepted, h2) =
        bind-ok (accept_ballot lib now env sig st) _ (seq, d2) h1 in
      let (_, open_now, e) = ballot-ok lib st now env sig accepted_seq.0 accepted_seq.1 accepted in
      let (key, final, inside, running, unpublished) = require_voting_open-ok lib st now open_now in
      written d d2 id st accepted_seq.1 found
        (subst (Change lib st) e (ballot env now key inside final running unpublished))
        (ap (λ t. t.1) (ok_injective _ (seq, d2) h2))

  pub result-Written :
      (d d2 : DataLayer) (id : Bytes) (r : ResultArtifact) (sig : Bytes)
      → publish_result lib id r sig d ≡ ok d2
      → Written d d2
  unfolding publish_result
  result-Written d d2 id r sig h =
      let (st, found, h1) = bind-ok (get d id) _ d2 h in
      let (new, accepted, h2) = bind-ok (accept_result lib id r sig st) _ d2 h1 in
      let change : Change lib st new = elim (result-ok lib st id r sig new accepted) [
        | inl same ↦ subst (Change lib st) same nothing
        | inr (free, e) ↦ subst (Change lib st) e (publishes r free)
      ] in
      written d d2 id st new found change (ok_injective _ d2 h2)

  pub stall-Written :
      (d d2 : DataLayer) (now later : ℕ) (id : Bytes) (b : Bool) (sig : Bytes) (issued_at : ℕ)
      → set_tally_stalled lib now later id b sig issued_at d ≡ ok d2
      → Written d d2
  unfolding set_tally_stalled put
  stall-Written d d2 now later id b sig issued_at h =
      let (st, found, h1) = bind-ok (get d id) _ d2 h in
      let (new, accepted, h2) =
        bind-ok
          (accept_tally_stalled lib now later id b sig issued_at
            (is_used (id, stall_op lib b, issued_at) d.used_request_nonces) st)
          _ d2 h1 in
      let e = ok_injective _ d2 h2 in
      record {
        id = id;
        st = st;
        new = new;
        stored = get-ok d id st found;
        change =
            subst (Change lib st)
              (tally_stalled-ok lib st now later id b sig issued_at _ new accepted) (stalls b);
        elections = ap (λ (x : DataLayer). x.elections) e;
        same_next = ap (λ (x : DataLayer). x.next_id) e;
      }

  -- `_aggregate_finalized` reads the aggregate of the same election.
  finalized-canonical :
      (d : DataLayer) (id : Bytes) (st : Stored) (b : Bool)
      → get d id ≡ ok st
      → st.config.election_id ≡ id
      → aggregate_finalized lib d st ≡ ok b
      → (o : Option AggregateArtifact) × (canonical_aggregate lib st.config.election_id st ≡ ok o)
        × (is_some o ≡ b)
  unfolding aggregate_finalized get_aggregate
  finalized-canonical d id st b found own h =
      let (o, h1, h2) = bind-ok (get_aggregate lib d st.config.election_id) _ b h in
      let (st2, found2, h3) = bind-ok (get d st.config.election_id) _ o h1 in
      let same : st2 ≡ st = ok_injective st2 st (sym found2 ∙ ap (get d) own ∙ found) in
      (
        o,
        subst (λ x. canonical_aggregate lib st.config.election_id x ≡ ok o) same h3,
        ok_injective _ b h2,
      )

  pub aggregate-Written :
      (d d2 : DataLayer) (now : ℕ) (id : Bytes) (a : AggregateArtifact) (sig : Bytes)
      → ((st : Stored) → lookup id d.elections ≡ some st → st.config.election_id ≡ id)
      → submit_aggregate lib now id a sig d ≡ ok d2
      → Written d d2
  unfolding submit_aggregate
  aggregate-Written d d2 now id a sig own h =
      let (st, found, h1) = bind-ok (get d id) _ d2 h in
      let (new, accepted, h2) =
        bind-ok (accept_aggregate lib now id a sig (aggregate_finalized lib d st) st) _ d2 h1 in
      let change : Change lib st new =
        elim (aggregate-ok lib st now id a sig (aggregate_finalized lib d st) new accepted) [
          | inl same ↦ subst (Change lib st) same nothing
          | inr (idx, open_still, e) ↦
              let (o, canonical, missing) =
                finalized-canonical d id st false found (own st (get-ok d id st found))
                  open_still in
              subst (Change lib st) e (aggregate idx a (canonical ∙ ap ok (none_of o missing)))
        ] in
      written d d2 id st new found change (ok_injective _ d2 h2)

  pub share-Written :
      (d d2 : DataLayer) (now : ℕ) (id : Bytes) (sh : DecryptionShareEnvelope) (sig : Bytes)
      → ((st : Stored) → lookup id d.elections ≡ some st → st.config.election_id ≡ id)
      → submit_decryption_share lib now id sh sig d ≡ ok d2
      → Written d d2
  unfolding submit_decryption_share
  share-Written d d2 now id sh sig own h =
      let (st, found, h1) = bind-ok (get d id) _ d2 h in
      let (new, accepted, h2) =
        bind-ok (accept_decryption_share lib now id sh sig (aggregate_finalized lib d st) st) _ d2
          h1 in
      let change : Change lib st new =
        elim (share-ok lib st now id sh sig (aggregate_finalized lib d st) new accepted) [
          | inl same ↦ subst (Change lib st) same nothing
          | inr (final, free, e) ↦
              let (o, canonical, present) =
                finalized-canonical d id st true found (own st (get-ok d id st found)) final in
              let (a, there) = some_of o present in
              subst (Change lib st) e (share sh a (canonical ∙ ap ok there) free)
        ] in
      written d d2 id st new found change (ok_injective _ d2 h2)
