-- ===== src/State/Lifecycle.antt =====
-- core/state.py: when the state is `voting`, and that the state only moves forward.
use generalised_elgamal_voti.Shared.{ℕ, ◌≤◌, ◌<◌, ◌≡◌, ◌↔◌, arith, false, true}
use generalised_elgamal_voti.Config.{ElectionConfig}
use generalised_elgamal_voti.State.{
  ElectionState, cancelled, complete, dkg_failed, registered, key_ready, voting, tallying,
  tally_stalled, StateFacts, derive_state, is_voting_open,
}

-- The state is voting exactly when there is no cancellation and no result, the key is finalized and
-- the half-open window is open.
pub derive_state-voting_iff :
    (c : ElectionConfig) (f : StateFacts) (now : ℕ)
    → (derive_state c f now ≡ voting) ↔ (
        (f.is_cancelled ≡ false)
        × (f.result_published ≡ false)
        × (f.key_finalized ≡ true)
        × (is_voting_open c now ≡ true))
unfolding derive_state is_voting_open
derive_state-voting_iff c f now = ground arith

-- How far the election has come.
pub phase : ElectionState → ℕ
phase registered = 0
phase key_ready = 1
phase voting = 2
phase tallying = 3
phase tally_stalled = 3
phase dkg_failed = 4
phase complete = 4
phase cancelled = 4

-- When facts are only added, and the key is finalized before voting starts if at all, the state
-- never goes back as time passes.
pub derive_state_forward :
    (c : ElectionConfig) (f g : StateFacts) (now later : ℕ)
    → now ≤ later
    → (f.is_cancelled ≡ true → g.is_cancelled ≡ true)
    → (f.result_published ≡ true → g.result_published ≡ true)
    → (f.key_finalized ≡ true → g.key_finalized ≡ true)
    → (f.key_finalized ≡ false → g.key_finalized ≡ true → now < c.voting_start)
    → phase (derive_state c f now) ≤ phase (derive_state c g later)
unfolding derive_state phase
derive_state_forward c f g now later le h1 h2 h3 h4 = ground arith
