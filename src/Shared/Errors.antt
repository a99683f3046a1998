-- ===== src/Shared/Errors.antt =====
-- The exceptions of the crypto modules and of ports/data_layer.py. `bad_dealers` is a ValueError with that attribute.
use generalised_elgamal_voti.Shared.Results.{Result}
use mathlib.Core.List.{List}
use Prim.Native.Nat.{ℕ}

pub data Error : Type 0 where
  value_error overflow_error runtime_error key_error index_error zero_division_error : Error
  immutability_error voting_window_error write_authorization_error quorum_conflict_error : Error
  bad_dealers : List ℕ → Error

-- What code that may raise returns.
abbrev pub Fallible : Type 0 → Type 0
Fallible A = Result Error A
