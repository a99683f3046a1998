-- ===== src/Aggregation/Checked.antt =====
-- core/aggregation.py: a result that `check_result` accepts is the one that `recover_result` finds.
use generalised_elgamal_voti.Shared.{
  ℕ, ◌≤◌, ◌<◌, ◌≡◌, refl, sym, ap, ◌∙◌, arith, Bool, true, false, not, List, [], ◌∷◌, length, leb,
  leb→le, ◌==◌, ==_iff, if◌then◌else◌, is_yes, is_yes→holds, Option, none, some, ok, Fallible,
  ◌>>=◌, bind-ok, ok_injective,
}
use generalised_elgamal_voti.Shared.Bytes.{Bytes}
use generalised_elgamal_voti.Params.{curve_order}
use generalised_elgamal_voti.Points.{PointLibrary, IsPrimeOrderGroup, HasCodec, mul}
use generalised_elgamal_voti.Recovery.{
  BabyStepTable, build_baby_step_table, baby_step_giant_step_with_table,
}
use generalised_elgamal_voti.Recovery.Bsgs.{baby_step_giant_step_with_table-found}
use generalised_elgamal_voti.Config.{ElectionConfig}
use generalised_elgamal_voti.Envelopes.{DecryptionShareEnvelope, AggregateArtifact, ResultArtifact}
use generalised_elgamal_voti.Aggregation.Defs.{bsgs_bound}
use generalised_elgamal_voti.Aggregation.Result.{
  ResultVerdict, accepted, bad_shares, bad_count, bad_range, bad_total, bad_sum, check_totals,
  recover_totals, derive_taus, recover_result, check_result,
}
use generalised_elgamal_voti.Aggregation.Taus.{Opens, length-derive_taus, derive_taus-Opens}

-- The artifact with these totals and keypers.
abbrev pub published :
    ElectionConfig → AggregateArtifact → (totals indices : List ℕ) → ResultArtifact
published config aggregate totals indices = record {
  election_id = config.election_id;
  totals = totals;
  keyper_indices = indices;
  bsgs_bound = bsgs_bound config aggregate.total_scaled_weight;
}

found_ok :
    {X : Type 0} (o : Option X) (f : X → ResultVerdict)
    → elim o [ none ↦ bad_shares | some x ↦ f x ] ≡ accepted
    → (x : X) × (o ≡ some x) × (f x ≡ accepted)
found_ok none f h = absurd cc
found_ok (some x) f h = (x, refl, h)

first_ok :
    (v sum : ResultVerdict)
    → elim v [
      | accepted ↦ sum
      | bad_shares ↦ bad_shares
      | bad_count ↦ bad_count
      | bad_range ↦ bad_range
      | bad_total ↦ bad_total
      | bad_sum ↦ bad_sum
    ]
      ≡ accepted
    → v ≡ accepted
first_ok v sum h = ground arith

counted :
    (wrong : Bool) (r : Fallible ResultVerdict)
    → (if wrong then ok bad_count else r) ≡ ok accepted
    → (wrong ≡ false) × (r ≡ ok accepted)
counted true r h = absurd cc
counted false r h = (refl, h)

module _ (L : PointLibrary) (laws : IsPrimeOrderGroup L) (codec : HasCodec L 96) where
  check_totals-parts :
      (bound : ℕ) (tau : L.Point) (taus : List L.Point) (total : ℕ) (claimed : List ℕ)
      → check_totals L bound (tau ∷ taus) (total ∷ claimed) ≡ accepted
      → (total ≤ bound)
        × (mul L L.generator total ≡ tau)
        × (check_totals L bound taus claimed ≡ accepted)
  unfolding check_totals
  check_totals-parts bound tau taus total claimed h =
      let (a, b, c) =
        passed (leb total bound) (is_yes (L.equal (mul L L.generator total) tau))
          (check_totals L bound taus claimed) h in
      (leb→le total bound a, is_yes→holds (L.equal (mul L L.generator total) tau) b, c)
    where
      passed :
          (low right : Bool) (rest : ResultVerdict)
          → (if not low then bad_range else if not right then bad_total else rest) ≡ accepted
          → (low ≡ true) × (right ≡ true) × (rest ≡ accepted)
      passed low right rest h = ground arith

  check_totals-recover_totals :
      (bound : ℕ) (taus : List L.Point) (claimed : List ℕ)
      → bound < curve_order
      → length claimed ≡ length taus
      → check_totals L bound taus claimed ≡ accepted
      → recover_totals L (build_baby_step_table L bound) taus ≡ some claimed
  unfolding recover_totals
  check_totals-recover_totals bound [] [] small l h = refl
  check_totals-recover_totals bound [] (total ∷ claimed) small l h = absurd (omega arith)
  check_totals-recover_totals bound (tau ∷ taus) [] small l h = absurd (omega arith)
  check_totals-recover_totals bound (tau ∷ taus) (total ∷ claimed) small l h =
      let (low, right, rest) = check_totals-parts bound tau taus total claimed h in
      let found : baby_step_giant_step_with_table L tau (build_baby_step_table L bound)
          ≡ some total =
        ap (λ P. baby_step_giant_step_with_table L P (build_baby_step_table L bound)) (sym right)
        ∙ baby_step_giant_step_with_table-found L laws codec total bound low small in
      step (build_baby_step_table L bound) found
        (check_totals-recover_totals bound taus claimed small (omega arith) rest)
    where
      step :
          (table : BabyStepTable L)
          → baby_step_giant_step_with_table L tau table ≡ some total
          → recover_totals L table taus ≡ some claimed
          → recover_totals L table (tau ∷ taus) ≡ some (total ∷ claimed)
      step table found rest = rw (recover_totals, found, rest)

  module _ (keccak : Bytes → Bytes) (config : ElectionConfig) (committee_pks : List Bytes)
      (quorum : ℕ) where
    -- What `check_result` accepts, `recover_result` finds: an artifact with exactly these totals, and with
    -- the keypers whose shares open the first candidate, the first `quorum` ones that are valid, where
    -- the bound is below the order and there is no ceiling.
    pub check_result-recover_result :
        (aggregate : AggregateArtifact) (shares : List DecryptionShareEnvelope) (claimed : List ℕ)
        → bsgs_bound config aggregate.total_scaled_weight < curve_order
        → check_result L keccak config committee_pks quorum aggregate shares claimed ≡ ok accepted
        → (indices : List ℕ) × Opens L keccak config committee_pks quorum aggregate.aggregates
            shares indices
          × (recover_result L keccak config committee_pks quorum aggregate shares none
              ≡ ok (some (published config aggregate claimed indices)))
    unfolding check_result recover_result derive_taus
    check_result-recover_result aggregate shares claimed small h =
        let (counts, h1) = counted (not (length claimed == length aggregate.aggregates)) _ h in
        let (derived, d, h2) =
          bind-ok (derive_taus L keccak config committee_pks quorum aggregate shares) _ accepted
            h1 in
        let (found, e, h3) = found_ok derived _ (ok_injective _ accepted h2) in
        let all_checked =
          first_ok
            (check_totals L (bsgs_bound config aggregate.total_scaled_weight) found.0 claimed) _
            h3 in
        let same : length claimed ≡ length aggregate.aggregates =
          (==_iff _ _).0 (not-false _ counts) in
        let totals =
          check_totals-recover_totals (bsgs_bound config aggregate.total_scaled_weight) found.0
            claimed small
            (same
              ∙ sym (
                  length-derive_taus L keccak config committee_pks quorum aggregate shares found
                    (d ∙ ap ok e)))
            all_checked in
        (
          found.1,
          derive_taus-Opens L keccak config committee_pks quorum aggregate shares found
              (d ∙ ap ok e),
          recovered _ derived found claimed d e totals,
        )
      where
        not-false : (b : Bool) → not b ≡ false → b ≡ true
        not-false b g = ground arith

        recovered :
            (r : Fallible (Option (List L.Point × List ℕ)))
            (derived : Option (List L.Point × List ℕ)) (found : List L.Point × List ℕ)
            (totals : List ℕ)
            → r ≡ ok derived
            → derived ≡ some found
            → recover_totals L
                (build_baby_step_table L (bsgs_bound config aggregate.total_scaled_weight))
                found.0
              ≡ some totals
            → (r >>= λ o. ok (elim o [
              | none ↦ none
              | some f ↦
                  elim (recover_totals L
                    (build_baby_step_table L (bsgs_bound config aggregate.total_scaled_weight))
                    f.0) [ none ↦ none | some ts ↦ some (published config aggregate ts f.1) ]
            ]))
              ≡ ok (some (published config aggregate totals found.1))
        recovered r derived found totals a b c = rw (a, b, c)
