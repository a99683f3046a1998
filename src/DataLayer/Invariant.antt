-- ===== src/DataLayer/Invariant.antt =====
-- adapters/memory.py: what holds of every stored election.
use generalised_elgamal_voti.Shared.{
  ℕ, suc, ◌+◌, ◌*◌, ◌≤◌, ◌<◌, ◌≡◌, refl, arith, inl, inr, true, List, [], ◌∷◌, ◌++◌, length, All,
  Distinct, some, Bool-cases, ◌==◌,
}
use generalised_elgamal_voti.Shared.Keys.{number_key}
use generalised_elgamal_voti.Shared.Dict.{Dict, keys, insert, keys-insert-Distinct}
use generalised_elgamal_voti.Config.{ElectionConfig}
use generalised_elgamal_voti.State.{is_voting_open}
use generalised_elgamal_voti.Envelopes.{StoredBallot}
use generalised_elgamal_voti.Envelopes.Equality.{finalized_key_key}
use generalised_elgamal_voti.WriteAuth.{SignatureLibrary}
use generalised_elgamal_voti.DataLayer.Defs.{Stored}
use generalised_elgamal_voti.DataLayer.Changes.{
  Change, nothing, cancels, dkg_result, ballot, aggregate, share, publishes, stalls, stored_ballot,
}
use generalised_elgamal_voti.DataLayer.Committee.{InCommittee}

-- Ballots numbered from `i` on in their order.
abbrev pub Numbered : (i : ℕ) → List StoredBallot → Type 0
Numbered i [] = Unit
Numbered i (sb ∷ sbs) = (sb.sequence_number ≡ i) × Numbered (suc i) sbs

-- Ballots that carry the time when they were received, inside the half-open voting window.
abbrev pub Timely : ElectionConfig → List StoredBallot → Type 0
Timely config = All (λ sb.
    (time : ℕ) × (sb.submitted_at ≡ some time)
    × (config.voting_start ≤ time)
    × (time < config.voting_end))

pub record WellFormed (st : Stored) : Type 0 where
  pub majority : length st.config.keypers < 2 * st.config.threshold.t
  pub indices : Distinct (keys st.dkg_by_keyper)
  pub committee : InCommittee (length st.config.keypers) (keys st.dkg_by_keyper)
  pub numbered : Numbered 0 st.ballots
  pub timely : Timely st.config st.ballots

Numbered-snoc :
    (i : ℕ) (sbs : List StoredBallot) (sb : StoredBallot)
    → Numbered i sbs
    → sb.sequence_number ≡ i + length sbs
    → Numbered i (sbs ++ sb ∷ [])
Numbered-snoc i [] sb h e = (omega arith, tt)
Numbered-snoc i (x ∷ sbs) sb (h, hs) e = (h, Numbered-snoc (suc i) sbs sb hs (omega arith))

Timely-snoc :
    (config : ElectionConfig) (sbs : List StoredBallot) (sb : StoredBallot)
    → Timely config sbs
    → (time : ℕ) × (sb.submitted_at ≡ some time)
      × (config.voting_start ≤ time)
      × (time < config.voting_end)
    → Timely config (sbs ++ sb ∷ [])
Timely-snoc config [] sb h e = (e, tt)
Timely-snoc config (x ∷ sbs) sb (h, hs) e = (h, Timely-snoc config sbs sb hs e)

in_window :
    (config : ElectionConfig) (now : ℕ)
    → is_voting_open config now ≡ true
    → (config.voting_start ≤ now) × (now < config.voting_end)
unfolding is_voting_open
in_window config now h = ground arith

InCommittee-insert :
    {V : Type 0} (n k : ℕ) (v : V) (d : Dict ℕ V)
    → InCommittee n (keys d)
    → 1 ≤ k
    → k ≤ n
    → InCommittee n (keys (insert k v d))
InCommittee-insert n k v [] h low high = ((low, high), tt)
InCommittee-insert n k v (f ∷ d) (h, hs) low high = elim (Bool-cases (k == f.0)) [
  | inl same ↦ rw same ((low, high), hs)
  | inr other ↦ rw other (h, InCommittee-insert n k v d hs low high)
]

module _ (lib : SignatureLibrary) where
  pub Change-WellFormed : {st new : Stored} → Change lib st new → WellFormed st → WellFormed new
  Change-WellFormed nothing wf = wf
  Change-WellFormed cancels wf = record {
    majority = wf.majority;
    indices = wf.indices;
    committee = wf.committee;
    numbered = wf.numbered;
    timely = wf.timely;
  }
  Change-WellFormed {st} (dkg_result idx sub low high free) wf = record {
    majority = wf.majority;
    indices = keys-insert-Distinct idx sub st.dkg_by_keyper wf.indices;
    committee =
        InCommittee-insert (length st.config.keypers) idx sub st.dkg_by_keyper wf.committee low
          high;
    numbered = wf.numbered;
    timely = wf.timely;
  }
  Change-WellFormed {st} (ballot env now key open_now final running unpublished) wf = record {
    majority = wf.majority;
    indices = wf.indices;
    committee = wf.committee;
    numbered =
        Numbered-snoc 0 st.ballots (stored_ballot (length st.ballots) env now) wf.numbered
          (omega arith);
    timely =
        Timely-snoc st.config st.ballots (stored_ballot (length st.ballots) env now) wf.timely (
          let (started, running) = in_window st.config now open_now in
          (now, refl, started, running));
  }
  Change-WellFormed (aggregate idx a h) wf = record {
    majority = wf.majority;
    indices = wf.indices;
    committee = wf.committee;
    numbered = wf.numbered;
    timely = wf.timely;
  }
  Change-WellFormed (share sh a h free) wf = record {
    majority = wf.majority;
    indices = wf.indices;
    committee = wf.committee;
    numbered = wf.numbered;
    timely = wf.timely;
  }
  Change-WellFormed (publishes r h) wf = record {
    majority = wf.majority;
    indices = wf.indices;
    committee = wf.committee;
    numbered = wf.numbered;
    timely = wf.timely;
  }
  Change-WellFormed (stalls b) wf = record {
    majority = wf.majority;
    indices = wf.indices;
    committee = wf.committee;
    numbered = wf.numbered;
    timely = wf.timely;
  }
