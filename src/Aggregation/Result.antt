-- ===== src/Aggregation/Result.antt =====
-- core/aggregation.py: the published aggregate, `_derive_taus`, `recover_result` and `check_result`.
use generalised_elgamal_voti.Shared.{
  ℕ, suc, ◌+◌, ◌-◌, false, not, ◌&&◌, List, [], ◌∷◌, map, length, take, get_elem?, ltb, leb, ◌==◌,
  if◌then◌else◌, is_yes, Option, none, some, ok, err, Fallible, value_error, index_error,
  runtime_error, key_error, zero_division_error, overflow_error, immutability_error,
  voting_window_error, write_authorization_error, quorum_conflict_error, bad_dealers, ◌>>=◌, ◌>>◌,
  raise_if,
}
use generalised_elgamal_voti.Shared.Bytes.{Bytes}
use generalised_elgamal_voti.Points.{
  PointLibrary, mul, add, neg, g2_to_compressed, g2_from_compressed,
}
use generalised_elgamal_voti.Elgamal
use generalised_elgamal_voti.Recovery.{
  combine_shares, BabyStepTable, build_baby_step_table, baby_step_giant_step_with_table,
}
use generalised_elgamal_voti.Proofs.{decode_dleq, make_decrypt_transcript, verify_decryption_share}
use generalised_elgamal_voti.Config.{ElectionConfig, Mode, exact, at_most}
use generalised_elgamal_voti.Envelopes.{
  Ciphertext, DecryptionShareEnvelope, AggregateArtifact, ResultArtifact,
}
use generalised_elgamal_voti.Admission.{AdmittedBallot, AdmissionResult}
use generalised_elgamal_voti.Aggregation.Defs.{scaled_weight, bsgs_bound, aggregate_points}

unfoldable pub total_scaled : (scale : ℕ) → List AdmittedBallot → Fallible ℕ
unfolding scaled_weight
total_scaled scale [] = ok 0
total_scaled scale (a ∷ admitted) = do
  w ← scaled_weight a.weight scale
  rest ← total_scaled scale admitted
  ok (w + rest)

-- `except ValueError: continue`
unfoldable pub skip_value_error : {A B : Type 0} → Fallible A → B → (A → Fallible B) → Fallible B
skip_value_error (ok a) skipped k = k a
skip_value_error (err value_error) skipped k = ok skipped
skip_value_error (err (bad_dealers _)) skipped k = ok skipped
skip_value_error (err overflow_error) skipped k = err overflow_error
skip_value_error (err runtime_error) skipped k = err runtime_error
skip_value_error (err key_error) skipped k = err key_error
skip_value_error (err index_error) skipped k = err index_error
skip_value_error (err zero_division_error) skipped k = err zero_division_error
skip_value_error (err immutability_error) skipped k = err immutability_error
skip_value_error (err voting_window_error) skipped k = err voting_window_error
skip_value_error (err write_authorization_error) skipped k = err write_authorization_error
skip_value_error (err quorum_conflict_error) skipped k = err quorum_conflict_error

-- `x[i]`
unfoldable pub at_index : {A : Type 0} → List A → ℕ → Fallible A
at_index xs i = elim (get_elem? xs i) [ none ↦ err index_error | some x ↦ ok x ]

unfoldable pub sum_totals : List ℕ → ℕ
sum_totals [] = 0
sum_totals (n ∷ ns) = n + sum_totals ns

-- What `check_result` answers: `(True, None)`, or `False` with a reason.
pub data ResultVerdict : Type 0 where
  accepted bad_shares bad_count bad_range bad_total bad_sum : ResultVerdict

module _ (L : PointLibrary) where
  unfoldable pub encode_aggregates : List (Elgamal.Ciphertext L) → Fallible (List Ciphertext)
  encode_aggregates [] = ok []
  encode_aggregates ((c1, c2) ∷ cts) = do
    b1 ← g2_to_compressed L c1
    b2 ← g2_to_compressed L c2
    rest ← encode_aggregates cts
    ok (record { c1 = b1; c2 = b2 } ∷ rest)

  unfoldable pub build_aggregate_artifact :
      ElectionConfig → AdmissionResult → Fallible AggregateArtifact
  unfolding aggregate_points encode_aggregates total_scaled
  build_aggregate_artifact config admission = do
    agg_pts ← aggregate_points L admission.admitted config.num_candidates config.scale
    aggregates ← encode_aggregates agg_pts
    total ← total_scaled config.scale admission.admitted
    ok (record {
      election_id = config.election_id;
      aggregates = aggregates;
      admitted = map (λ (a : AdmittedBallot). a.sequence_number) admission.admitted;
      exclusions = admission.exclusions;
      total_admitted_weight = admission.total_admitted_weight;
      total_scaled_weight = total;
    })

  -- The loop of `check_result`: the first claim that fails.
  unfoldable pub check_totals : (bound : ℕ) (taus : List L.Point) (claimed : List ℕ) → ResultVerdict
  check_totals bound (tau ∷ taus) (total ∷ claimed) =
      let rest = check_totals bound taus claimed in
      if not (leb total bound)
      then bad_range
      else if not (is_yes (L.equal (mul L L.generator total) tau))
      then bad_total
      else rest
  check_totals bound [] claimed = accepted
  check_totals bound (tau ∷ taus) [] = accepted

  unfoldable pub check_sum : Mode → (summed bound : ℕ) → ResultVerdict
  check_sum exact summed bound = if not (summed == bound) then bad_sum else accepted
  check_sum at_most summed bound = if ltb bound summed then bad_sum else accepted

  -- The totals of `recover_result`, each from the one table.
  unfoldable pub recover_totals : BabyStepTable L → List L.Point → Option (List ℕ)
  recover_totals table [] = some []
  recover_totals table (tau ∷ taus) =
      let rest = recover_totals table taus in
      elim (baby_step_giant_step_with_table L tau table) [
        | none ↦ none
        | some m ↦ elim rest [ none ↦ none | some ms ↦ some (m ∷ ms) ]
      ]

  module _ (keccak : Bytes → Bytes) (config : ElectionConfig) (committee_pks : List Bytes)
      (quorum : ℕ) where
    -- The share of one keyper for candidate `j`: `none` where the loop goes on without it.
    unfoldable pub valid_share :
        (j : ℕ) (c1 c2 : L.Point) → DecryptionShareEnvelope → Fallible (Option (ℕ × L.Point))
    unfolding skip_value_error at_index
    valid_share j c1 c2 share =
        let idx = share.keyper_index in
        if leb (length share.entries) j
        then ok none
        else if not (leb 1 idx && leb idx (length committee_pks))
        then ok none
        else do
          entry ← at_index share.entries j
          skip_value_error
              (do
                sigma ← g2_from_compressed L entry.sigma
                (e, z) ← decode_dleq entry.proof
                pk ← at_index committee_pks (idx - 1)
                mpk_k ← g2_from_compressed L pk
                ok (sigma, e, z, mpk_k))
              none
              λ decoded. do
                let (sigma, e, z, mpk_k) = decoded
                t ← make_decrypt_transcript config.election_id j
                good ← verify_decryption_share keccak L t c1 c2 mpk_k sigma e z idx
                ok (if good then some (idx, sigma) else none)

    unfoldable pub valid_shares :
        (j : ℕ) (c1 c2 : L.Point) → List DecryptionShareEnvelope → Fallible (List (ℕ × L.Point))
    unfolding valid_share
    valid_shares j c1 c2 [] = ok []
    valid_shares j c1 c2 (share ∷ shares) = do
      one ← valid_share j c1 c2 share
      rest ← valid_shares j c1 c2 shares
      ok (elim one [ none ↦ rest | some s ↦ s ∷ rest ])

    -- The loop of `_derive_taus`, from candidate `j`, with the shares that each candidate used.
    unfoldable pub taus_from :
        (j : ℕ)
        → List Ciphertext
        → List DecryptionShareEnvelope
        → Fallible (Option (List (L.Point × List ℕ)))
    unfolding valid_shares combine_shares
    taus_from j [] shares = ok (some [])
    taus_from j (ct ∷ cts) shares = do
      c1 ← g2_from_compressed L ct.c1
      c2 ← g2_from_compressed L ct.c2
      valid ← valid_shares j c1 c2 shares
      if ltb (length valid) quorum then ok none else do
        let chosen = take quorum valid
        sigma ← combine_shares L chosen
        rest ← taus_from (suc j) cts shares
        ok (elim rest [
          | none ↦ none
          | some taus ↦ some ((add L c2 (neg L sigma), map (λ s. s.0) chosen) ∷ taus)
        ])

    -- `indices_used or ()`: the keypers of the first candidate.
    unfoldable pub first_indices : List (L.Point × List ℕ) → List ℕ
    first_indices [] = []
    first_indices ((_, indices) ∷ taus) = indices

    -- `_derive_taus`
    unfoldable pub derive_taus :
        AggregateArtifact → List DecryptionShareEnvelope → Fallible (Option (List L.Point × List ℕ))
    unfolding taus_from first_indices
    derive_taus aggregate shares = do
      found ← taus_from 0 aggregate.aggregates shares
      ok (elim found [ none ↦ none | some taus ↦ some (map (λ t. t.0) taus, first_indices taus) ])

    -- `recover_result`; `TallyInfeasible`, raised above the ceiling, is a RuntimeError here.
    unfoldable pub recover_result :
        AggregateArtifact
        → List DecryptionShareEnvelope
        → (solver_ceiling : Option ℕ) → Fallible (Option ResultArtifact)
    unfolding derive_taus bsgs_bound recover_totals
    recover_result aggregate shares solver_ceiling = do
      let bound = bsgs_bound config aggregate.total_scaled_weight
      raise_if (elim solver_ceiling [ none ↦ false | some ceiling ↦ ltb ceiling bound ])
          runtime_error
      derived ← derive_taus aggregate shares
      ok (elim derived [
        | none ↦ none
        | some found ↦ elim (recover_totals (build_baby_step_table L bound) found.0) [
          | none ↦ none
          | some totals ↦ some (record {
            election_id = config.election_id;
            totals = totals;
            keyper_indices = found.1;
            bsgs_bound = bound;
          })
        ]
      ])

    unfoldable pub check_result :
        AggregateArtifact
        → List DecryptionShareEnvelope
        → (claimed_totals : List ℕ) → Fallible ResultVerdict
    unfolding derive_taus bsgs_bound check_totals check_sum sum_totals
    check_result aggregate shares claimed_totals =
        if not (length claimed_totals == length aggregate.aggregates) then ok bad_count else do
          derived ← derive_taus aggregate shares
          let bound = bsgs_bound config aggregate.total_scaled_weight
          ok (elim derived [
            | none ↦ bad_shares
            | some found ↦ elim (check_totals bound found.0 claimed_totals) [
              | accepted ↦ check_sum config.mode (sum_totals claimed_totals) bound
              | bad_shares ↦ bad_shares
              | bad_count ↦ bad_count
              | bad_range ↦ bad_range
              | bad_total ↦ bad_total
              | bad_sum ↦ bad_sum
            ]
          ])
