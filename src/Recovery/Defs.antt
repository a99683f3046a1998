-- ===== src/Recovery/Defs.antt =====
-- crypto/recovery.py: its functions. `math.isqrt` is written out; `pow(den, -1, q)` is `mod_inverse`.
use generalised_elgamal_voti.Shared.{
  ℕ, zero, suc, ◌+◌, ◌*◌, ◌%◌, List, [], ◌∷◌, map, Option, none, some, ◌==◌, ltb, leb,
  if◌then◌else◌, ok, err, value_error, Fallible, ◌>>=◌,
}
use generalised_elgamal_voti.Shared.Int.{pos, sub_ℕ, ◌*ℤ◌, floor_mod}
use generalised_elgamal_voti.Shared.Bytes.{Bytes}
use generalised_elgamal_voti.Shared.Keys.{bytes_key}
use generalised_elgamal_voti.Shared.Dict.{Dict, lookup, insert}
use generalised_elgamal_voti.Modular.Inverse.{mod_inverse}
use generalised_elgamal_voti.Params.{curve_order}
use generalised_elgamal_voti.Points.{PointLibrary, mul, add, neg, is_identity}

-- The loop of `lagrange_coefficient`: numerator and denominator over the other indices.
unfoldable pub lagrange_terms : (q j_id num den : ℕ) → List ℕ → ℕ × ℕ
lagrange_terms q j_id num den [] = (num, den)
lagrange_terms q j_id num den (k_id ∷ ids) =
    let skip = k_id == j_id in
    lagrange_terms q j_id (if skip then num else floor_mod (pos num *ℤ sub_ℕ 0 k_id) q)
      (if skip then den else floor_mod (pos den *ℤ sub_ℕ j_id k_id) q) ids

unfoldable pub or_value_error : Option ℕ → Fallible ℕ
or_value_error none = err value_error
or_value_error (some x) = ok x

unfoldable pub lagrange_coefficient : (j_id : ℕ) → List ℕ → (q : ℕ) → Fallible ℕ
unfolding lagrange_terms or_value_error
lagrange_coefficient j_id all_ids q =
    let (num, den) = lagrange_terms q j_id 1 1 all_ids in
    (do inverse ← or_value_error (mod_inverse den q); ok ((num * inverse) % q))

-- `math.isqrt`: the largest number whose square is at most `n`.
unfoldable pub isqrt : ℕ → ℕ
isqrt zero = 0
isqrt (suc n) = let r = isqrt n in if leb ((r + 1) * (r + 1)) (suc n) then r + 1 else r

module _ (L : PointLibrary) where
  -- The loop of `combine_shares`.
  unfoldable pub combine_from : List ℕ → L.Point → List (ℕ × L.Point) → Fallible L.Point
  unfolding lagrange_coefficient
  combine_from all_ids result [] = ok result
  combine_from all_ids result ((j_id, sigma_j) ∷ shares) =
      lagrange_coefficient j_id all_ids curve_order >>= λ lam.
      combine_from all_ids (add L result (mul L sigma_j lam)) shares

  unfoldable pub combine_shares : List (ℕ × L.Point) → Fallible L.Point
  unfolding combine_from
  combine_shares shares = combine_from (map (λ s. s.0) shares) L.identity shares

  unfoldable pub key : L.Point → Bytes
  key P = if is_identity L P then 0 ∷ [] else L.to_compressed_bytes P

  pub record BabyStepTable : Type 0 where
    pub max_val : ℕ
    pub n : ℕ
    pub neg_step : L.Point
    pub table : Dict Bytes ℕ

  -- The loop of `build_baby_step_table`, with the rounds left.
  unfoldable pub baby_steps : (rounds j : ℕ) → L.Point → Dict Bytes ℕ → Dict Bytes ℕ
  unfolding key
  baby_steps zero j power table = table
  baby_steps (suc rounds) j power table =
      baby_steps rounds (j + 1) (add L power L.generator) (insert (key power) j table)

  unfoldable pub table_size : ℕ → ℕ
  unfolding isqrt
  table_size max_val = if ltb 0 max_val then isqrt max_val + 2 else 1

  unfoldable pub build_baby_step_table : ℕ → BabyStepTable
  unfolding table_size baby_steps
  build_baby_step_table max_val = record {
    max_val = max_val;
    n = table_size max_val;
    neg_step = neg L (mul L L.generator (table_size max_val));
    table = baby_steps (table_size max_val) 0 L.identity [];
  }

  -- The loop of `baby_step_giant_step_with_table`, with the rounds left.
  unfoldable pub giant_steps : BabyStepTable → (rounds i : ℕ) → L.Point → Option ℕ
  unfolding key
  giant_steps t zero i gamma = none
  giant_steps t (suc rounds) i gamma =
      let rest = giant_steps t rounds (i + 1) (add L gamma t.neg_step) in
      elim (lookup (key gamma) t.table) [
        | none ↦ rest
        | some j ↦ if leb (i * t.n + j) t.max_val then some (i * t.n + j) else rest
      ]

  unfoldable pub baby_step_giant_step_with_table : L.Point → BabyStepTable → Option ℕ
  unfolding giant_steps
  baby_step_giant_step_with_table target t =
      if t.max_val == 0
      then if is_identity L target then some 0 else none
      else if is_identity L target
      then some 0
      else giant_steps t (t.n + 1) 0 target

  unfoldable pub baby_step_giant_step : L.Point → ℕ → Option ℕ
  unfolding baby_step_giant_step_with_table build_baby_step_table
  baby_step_giant_step target max_val =
      if max_val == 0
      then if is_identity L target then some 0 else none
      else if is_identity L target
      then some 0
      else baby_step_giant_step_with_table target (build_baby_step_table max_val)

  unfoldable pub threshold_decrypt :
      L.Point → L.Point → List (ℕ × L.Point) → ℕ → Fallible (Option ℕ)
  unfolding combine_shares baby_step_giant_step
  threshold_decrypt c1 c2 shares max_val = do
    sigma ← combine_shares shares
    ok (baby_step_giant_step (add L c2 (neg L sigma)) max_val)
