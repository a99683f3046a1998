-- ===== src/State.antt =====
-- core/state.py: the lifecycle state, derived from the facts and the time.
use generalised_elgamal_voti.Shared.{ℕ, Bool, false, true, not, ◌&&◌, ltb, leb, if◌then◌else◌}
use generalised_elgamal_voti.Config.{ElectionConfig}
pub mod Lifecycle

pub data ElectionState : Type 0 where
  cancelled complete dkg_failed registered key_ready voting tallying tally_stalled : ElectionState

pub record StateFacts : Type 0 where
  pub is_cancelled : Bool
  pub key_finalized : Bool
  pub result_published : Bool
  pub is_tally_stalled : Bool

unfoldable pub derive_state : ElectionConfig → StateFacts → ℕ → ElectionState
derive_state config facts now =
    if facts.is_cancelled
    then cancelled
    else if facts.result_published
    then complete
    else if leb config.voting_start now && not facts.key_finalized
    then dkg_failed
    else if not facts.key_finalized
    then registered
    else if ltb now config.voting_start
    then key_ready
    else if ltb now config.voting_end
    then voting
    else if facts.is_tally_stalled
    then tally_stalled
    else tallying

unfoldable pub is_voting_open : ElectionConfig → ℕ → Bool
is_voting_open config now = leb config.voting_start now && ltb now config.voting_end
