-- ===== src/Dkg/Defs.antt =====
-- crypto/dkg.py: the class `KeyperDKGState` and the functions of the module.
use generalised_elgamal_voti.Shared.{
  ℕ, zero, suc, ◌+◌, ◌*◌, ◌%◌, Bool, true, not, ◌||◌, List, [], ◌∷◌, map, Option, none, some,
  length, ◌==◌, if◌then◌else◌, ok, err, bad_dealers, runtime_error, index_error, Fallible, ◌>>=◌,
  ◌>>◌,
}
use generalised_elgamal_voti.Shared.Keys.{number_key}
use generalised_elgamal_voti.Shared.Dict.{Dict, lookup, sorted_items}
use generalised_elgamal_voti.Params.{curve_order}
use generalised_elgamal_voti.Points.{PointLibrary, mul, add, eq}

-- The inner loop of `round1`: `val` and `x_power` over the coefficients.
unfoldable pub eval_share : (x val x_power : ℕ) → List ℕ → ℕ
eval_share x val x_power [] = val
eval_share x val x_power (c ∷ cs) =
    eval_share x ((val + c * x_power) % curve_order) ((x_power * x) % curve_order) cs

-- The outer loop of `round1`: the shares for `i`, `i + 1`, … of `k` keypers.
unfoldable pub deal_shares : List ℕ → (i k : ℕ) → Dict ℕ ℕ
deal_shares cs i zero = []
deal_shares cs i (suc k) = (i, eval_share i 0 1 cs) ∷ deal_shares cs (i + 1) k

-- `sum(d.values())`
abbrev pub sum_values : Dict ℕ ℕ → ℕ
sum_values [] = 0
sum_values ((_, v) ∷ d) = v + sum_values d

module _ (L : PointLibrary) where
  -- The keyper's fields from round 1 on, which sets `keyper_id`, `n` and `quorum`; `none` is Python's None.
  pub record KeyperDkgState : Type 0 where
    pub keyper_id : ℕ
    pub n : ℕ
    pub quorum : ℕ
    pub coefficients : Option (List ℕ)
    pub commitments : Option (List L.Point)
    pub shares_for_others : Dict ℕ ℕ
    pub combined_share : Option ℕ
    pub public_key_share : Option L.Point

  -- `round1`, with the `quorum` random coefficients that it draws as an argument.
  unfoldable pub round1 :
      List ℕ → KeyperDkgState → (keyper_id n quorum : ℕ) → KeyperDkgState × List L.Point × Dict ℕ ℕ
  unfolding eval_share deal_shares
  round1 drawn s keyper_id n quorum =
      let commitments = map (mul L L.generator) drawn in
      let shares = deal_shares drawn 1 n in
      (
        record s {
          keyper_id = keyper_id;
          n = n;
          quorum = quorum;
          coefficients = some drawn;
          commitments = some commitments;
          shares_for_others = shares;
        },
        commitments,
        shares,
      )

  -- The loop of `verify_share`.
  unfoldable pub expected_share : (x : ℕ) → L.Point → (x_power : ℕ) → List L.Point → L.Point
  expected_share x expected x_power [] = expected
  expected_share x expected x_power (c ∷ cs) =
      expected_share x (add L expected (mul L c x_power)) ((x_power * x) % curve_order) cs

  unfoldable pub verify_share : List L.Point → (recipient_index share : ℕ) → Bool
  unfolding expected_share
  verify_share commitments recipient_index share =
      eq L (expected_share recipient_index L.identity 1 commitments) (mul L L.generator share)

  -- Whether `round2` refuses a dealer: no vector, one of the wrong length, or a bad share.
  unfoldable pub is_bad_dealer : Dict ℕ (List L.Point) → (my_id quorum dealer_id share : ℕ) → Bool
  unfolding verify_share
  is_bad_dealer all_commitments my_id quorum dealer_id share =
      elim (lookup dealer_id all_commitments) [
        | none ↦ true
        | some comms ↦ not (length comms == quorum) || not (verify_share comms my_id share)
      ]

  unfoldable pub find_bad_dealers : Dict ℕ (List L.Point) → (my_id quorum : ℕ) → Dict ℕ ℕ → List ℕ
  unfolding is_bad_dealer
  find_bad_dealers comms my_id quorum [] = []
  find_bad_dealers comms my_id quorum ((d, share) ∷ received) =
      let rest = find_bad_dealers comms my_id quorum received in
      if is_bad_dealer comms my_id quorum d share then d ∷ rest else rest

  unfoldable pub combine_received :
      KeyperDkgState → Dict ℕ ℕ → List ℕ → Fallible (KeyperDkgState × ℕ × L.Point)
  combine_received s received (d ∷ ds) = err (bad_dealers (d ∷ ds))
  combine_received s received [] =
      let combined = sum_values received % curve_order in
      let public = mul L L.generator combined in
      ok (
        record s { combined_share = some combined; public_key_share = some public },
        combined,
        public,
      )

  unfoldable pub round2 :
      KeyperDkgState → Dict ℕ (List L.Point) → Dict ℕ ℕ → Fallible (KeyperDkgState × ℕ × L.Point)
  unfolding find_bad_dealers combine_received
  round2 s all_commitments received_shares =
      combine_received s received_shares
        (find_bad_dealers all_commitments s.keyper_id s.quorum received_shares)

  unfoldable pub zeroize_dealing : KeyperDkgState → KeyperDkgState
  zeroize_dealing s = record s { coefficients = none; shares_for_others = [] }

  unfoldable pub decrypt_with : Option ℕ → L.Point → Fallible L.Point
  decrypt_with none c1 = err runtime_error
  decrypt_with (some share) c1 = ok (mul L c1 share)

  unfoldable pub partial_decrypt : KeyperDkgState → L.Point → Fallible L.Point
  unfolding decrypt_with
  partial_decrypt s c1 = decrypt_with s.combined_share c1

  unfoldable pub wrong_lengths : (quorum : ℕ) → Dict ℕ (List L.Point) → List ℕ
  wrong_lengths quorum [] = []
  wrong_lengths quorum ((d, c) ∷ rest) =
      let others = wrong_lengths quorum rest in if length c == quorum then others else d ∷ others

  unfoldable pub refuse : List ℕ → Fallible (Unit {0})
  refuse [] = ok tt
  refuse (d ∷ ds) = err (bad_dealers (d ∷ ds))

  -- The dealers of the error are sorted, since the items are.
  unfoldable pub check_commitment_lengths :
      Dict ℕ (List L.Point) → (quorum : ℕ) → Fallible (Unit {0})
  unfolding wrong_lengths refuse
  check_commitment_lengths all_commitments quorum =
      refuse (wrong_lengths quorum (sorted_items all_commitments))

  -- `comms[0]`, an IndexError for an empty vector.
  unfoldable pub first : List L.Point → Fallible L.Point
  first [] = err index_error
  first (c ∷ cs) = ok c

  unfoldable pub sum_constants : L.Point → Dict ℕ (List L.Point) → Fallible L.Point
  unfolding first
  sum_constants mpk [] = ok mpk
  sum_constants mpk ((d, comms) ∷ rest) =
      first comms >>= λ constant. sum_constants (add L mpk constant) rest

  unfoldable pub derive_joint_mpk : Dict ℕ (List L.Point) → (quorum : ℕ) → Fallible L.Point
  unfolding check_commitment_lengths sum_constants
  derive_joint_mpk all_commitments quorum = do
    check_commitment_lengths all_commitments quorum
    sum_constants L.identity (sorted_items all_commitments)

  unfoldable pub sum_shares : (target : ℕ) → L.Point → Dict ℕ (List L.Point) → L.Point
  unfolding expected_share
  sum_shares target mpk_share [] = mpk_share
  sum_shares target mpk_share ((d, comms) ∷ rest) =
      sum_shares target (expected_share target mpk_share 1 comms) rest

  unfoldable pub derive_mpk_share :
      (target : ℕ) → Dict ℕ (List L.Point) → (quorum : ℕ) → Fallible L.Point
  unfolding check_commitment_lengths sum_shares
  derive_mpk_share target all_commitments quorum = do
    check_commitment_lengths all_commitments quorum
    ok (sum_shares target L.identity (sorted_items all_commitments))
