-- ===== src/Config.antt =====
-- core/config.py: the election configuration and its checks. Integers are natural numbers, as a
-- negative one is refused by the same guard as 0; the fee, whose guard is `< 0`, is an integer.
use generalised_elgamal_voti.Shared.{
  ℕ, ◌+◌, ◌*◌, Bool, not, ◌||◌, ◌&&◌, false, true, List, [], ◌∷◌, map, length, ltb, leb, ◌==◌,
  if◌then◌else◌, ok, value_error, Fallible, ◌>>=◌, ◌>>◌, raise_if,
}
use generalised_elgamal_voti.Shared.Bytes.{Bytes}
use generalised_elgamal_voti.Shared.Int.{ℤ, pos, negsuc}
use generalised_elgamal_voti.Shared.Keys.{same_list, number_key}
pub mod Checks

pub data Mode : Type 0 where
  exact at_most : Mode

pub data Variant : Type 0 where
  variant_a variant_b : Variant

pub data DuplicatePolicy : Type 0 where
  first_wins last_wins : DuplicatePolicy

pub record Threshold : Type 0 where
  pub t : ℕ
  pub n : ℕ

-- `Threshold(t, n)`
unfoldable pub new_threshold : (t n : ℕ) → Fallible Threshold
new_threshold t n = do
  raise_if (ltb n 1) value_error
  raise_if (not (leb 1 t && leb t n)) value_error
  raise_if (leb (t * 2) n) value_error
  ok (record { t = t; n = n })

pub record KeyperIdentity : Type 0 where
  pub signing_key : Bytes
  pub url : Bytes

pub record ElectionConfig : Type 0 where
  pub election_id : Bytes
  pub num_candidates : ℕ
  pub budget : ℕ
  pub mode : Mode
  pub variant : Variant
  pub weighted : Bool
  pub duplicate_policy : DuplicatePolicy
  pub voting_start : ℕ
  pub voting_end : ℕ
  pub threshold : Threshold
  pub keypers : List KeyperIdentity
  pub eligibility_key : Bytes
  pub result_publisher_key : Bytes
  pub gateway_keys : List Bytes
  pub admin_key : Bytes
  pub protocol_version : Bytes
  pub scale : ℕ
  pub self_submit_fee_wei : ℤ

abbrev pub max_num_candidates : ℕ
max_num_candidates = 65535

abbrev pub max_budget : ℕ
max_budget = 65534

abbrev pub max_proof_branches : ℕ
max_proof_branches = 2500

unfoldable pub is_negative : ℤ → Bool
is_negative (pos _) = false
is_negative (negsuc _) = true

unfoldable pub check_ballot_bounds : ElectionConfig → Fallible Unit
check_ballot_bounds c = do
  raise_if (ltb max_num_candidates c.num_candidates) value_error
  raise_if (ltb max_budget c.budget) value_error
  raise_if (ltb max_proof_branches (c.num_candidates * (c.budget + 1))) value_error

-- `x in xs`
unfoldable pub contains : Bytes → List Bytes → Bool
contains x [] = false
contains x (y ∷ ys) = same_list x y || contains x ys

-- `set(xs)`
unfoldable pub to_set : List Bytes → List Bytes
unfolding contains
to_set [] = []
to_set (x ∷ xs) = if contains x xs then to_set xs else x ∷ to_set xs

-- `__post_init__`
unfoldable pub post_init : ElectionConfig → Fallible Unit
unfolding check_ballot_bounds to_set is_negative
post_init c = do
  raise_if (ltb c.num_candidates 1) value_error
  raise_if (is_negative c.self_submit_fee_wei) value_error
  raise_if (ltb c.budget 1) value_error
  raise_if (ltb c.scale 1) value_error
  check_ballot_bounds c
  raise_if (leb c.voting_end c.voting_start) value_error
  raise_if (not (length c.keypers == c.threshold.n)) value_error
  let signing_keys = map (λ (k : KeyperIdentity). k.signing_key) c.keypers
  raise_if (not (length (to_set signing_keys) == length signing_keys)) value_error
