-- ===== src/Proofs/Branches.antt =====
-- crypto/proofs.py: the OR proof and the budget proof of the mode atMost. The nonce `w` and the
-- simulated `(e, z)` of every branch are arguments; the pair at the true index is not used.
use generalised_elgamal_voti.Shared.{
  ℕ, zero, suc, ◌+◌, ◌*◌, ◌%◌, Bool, true, false, not, ◌&&◌, List, [], ◌∷◌, ◌++◌, length, ltb, ◌==◌,
  if◌then◌else◌, ok, value_error, Fallible, ◌>>=◌, ◌>>◌, raise_if,
}
use generalised_elgamal_voti.Shared.Bytes.{Bytes, encode as text, decimal}
use generalised_elgamal_voti.Shared.Int.{pos, sub_ℕ, floor_mod, ◌*ℤ◌}
use generalised_elgamal_voti.Params.{curve_order, u32be}
use generalised_elgamal_voti.Points.{PointLibrary, mul, add, eq}
use generalised_elgamal_voti.Transcript.{Transcript, append, append_scalar, append_point, challenge}
use generalised_elgamal_voti.Proofs.Defs.{negate, without_plaintext}

pub record OrBranch (L : PointLibrary) : Type 0 where
  pub a1 : L.Point
  pub a2 : L.Point
  pub e : ℕ
  pub z : ℕ

-- `f"{head}[{i}]"`
unfoldable pub indexed : (head : Bytes) → ℕ → Bytes
indexed head i = head ++ (text "[" ++ (decimal i ++ text "]"))

-- The loop of `_bind_statement_or`, from the candidate of index `i`.
unfoldable pub append_candidates : Transcript → ℕ → List ℕ → Fallible Transcript
unfolding indexed
append_candidates t i [] = ok t
append_candidates t i (m ∷ ms) = do
  next ← append_scalar t (indexed (text "or:m") i) (m % curve_order)
  append_candidates next (suc i) ms

-- `list(range(start, start + n))`
unfoldable pub range_from : (start n : ℕ) → List ℕ
range_from start zero = []
range_from start (suc n) = start ∷ range_from (suc start) n

module _ (L : PointLibrary) where
  unfoldable pub bind_statement_or :
      Transcript → (c1 c2 mpk : L.Point) (candidates : List ℕ) → Fallible Transcript
  unfolding append_candidates
  bind_statement_or t c1 c2 mpk candidates = do
    t1 ← append_point L t (text "or:P2") L.generator
    t2 ← append_point L t1 (text "or:mpk") mpk
    t3 ← append_point L t2 (text "or:C1") c1
    t4 ← append_point L t3 (text "or:C2") c2
    count ← u32be (length candidates)
    t5 ← append t4 (text "or:|M|") count
    append_candidates t5 0 candidates

  unfoldable pub append_branches : Transcript → ℕ → List (OrBranch L) → Fallible Transcript
  unfolding indexed
  append_branches t i [] = ok t
  append_branches t i (br ∷ branches) = do
    t1 ← append_point L t (indexed (text "or:a1") i) br.a1
    t2 ← append_point L t1 (indexed (text "or:a2") i) br.a2
    append_branches t2 (suc i) branches

  -- A branch before the challenge is known.
  unfoldable pub real_branch : (mpk : L.Point) (w : ℕ) → OrBranch L
  real_branch mpk w = record { a1 = mul L L.generator w; a2 = mul L mpk w; e = 0; z = 0 }

  unfoldable pub simulated_branch : (c1 c2 mpk : L.Point) (m : ℕ) → ℕ × ℕ → OrBranch L
  unfolding negate without_plaintext
  simulated_branch c1 c2 mpk m sim =
      let ei = sim.0 % curve_order in
      let zi = sim.1 % curve_order in
      record {
        a1 = add L (mul L L.generator zi) (mul L c1 (negate ei));
        a2 = add L (mul L mpk zi) (mul L (without_plaintext L c2 m) (negate ei));
        e = ei;
        z = zi;
      }

  -- The first loop of `prove_or`, from the index `i`.
  unfoldable pub commit_branches :
      (c1 c2 mpk : L.Point) (true_index w i : ℕ) → List ℕ → List (ℕ × ℕ) → List (OrBranch L)
  unfolding real_branch simulated_branch
  commit_branches c1 c2 mpk true_index w i (m ∷ ms) (sim ∷ sims) =
      (if i == true_index then real_branch mpk w else simulated_branch c1 c2 mpk m sim)
      ∷ commit_branches c1 c2 mpk true_index w (suc i) ms sims
  commit_branches c1 c2 mpk true_index w i [] sims = []
  commit_branches c1 c2 mpk true_index w i (m ∷ ms) [] = []

  -- `sum(branches[i].e for i in range(n) if i != true_index)`
  unfoldable pub simulated_sum : (true_index i : ℕ) → List (OrBranch L) → ℕ
  simulated_sum true_index i [] = 0
  simulated_sum true_index i (br ∷ branches) =
      (if i == true_index then 0 else br.e) + simulated_sum true_index (suc i) branches

  -- `branches[true_index].e = e; branches[true_index].z = z`
  unfoldable pub respond : (true_index e z i : ℕ) → List (OrBranch L) → List (OrBranch L)
  respond true_index e z i [] = []
  respond true_index e z i (br ∷ branches) =
      (if i == true_index then record br { e = e; z = z } else br)
      ∷ respond true_index e z (suc i) branches

  -- `sum(br.e for br in branches)`
  unfoldable pub sum_challenges : List (OrBranch L) → ℕ
  sum_challenges [] = 0
  sum_challenges (br ∷ branches) = br.e + sum_challenges branches

  -- The two equations of a branch of `verify_or`.
  unfoldable pub check_branch : (c1 c2 mpk : L.Point) (m : ℕ) → OrBranch L → Bool
  unfolding without_plaintext
  check_branch c1 c2 mpk m br =
      eq L (mul L L.generator br.z) (add L br.a1 (mul L c1 br.e))
      && eq L (mul L mpk br.z) (add L br.a2 (mul L (without_plaintext L c2 m) br.e))

  unfoldable pub check_branches : (c1 c2 mpk : L.Point) → List ℕ → List (OrBranch L) → Bool
  unfolding check_branch
  check_branches c1 c2 mpk (m ∷ ms) (br ∷ branches) =
      check_branch c1 c2 mpk m br && check_branches c1 c2 mpk ms branches
  check_branches c1 c2 mpk [] branches = true
  check_branches c1 c2 mpk (m ∷ ms) [] = true

  module _ (keccak : Bytes → Bytes) where
    -- The statement, the commitments and the challenge, in the prover and in the verifier.
    unfoldable pub or_challenge :
        Transcript → (c1 c2 mpk : L.Point) → List ℕ → List (OrBranch L) → Fallible (ℕ × Transcript)
    unfolding bind_statement_or append_branches
    or_challenge t c1 c2 mpk candidates branches = do
      bound ← bind_statement_or t c1 c2 mpk candidates
      committed ← append_branches bound 0 branches
      challenge keccak committed (text "or:e")

    unfoldable pub prove_or :
        (c1 c2 mpk : L.Point) (candidates : List ℕ) (r true_index : ℕ)
        → Transcript
        → (w : ℕ) → (simulated : List (ℕ × ℕ)) → Fallible (List (OrBranch L) × Transcript)
    unfolding commit_branches or_challenge simulated_sum respond
    prove_or c1 c2 mpk candidates r true_index t w simulated = do
      raise_if (length candidates == 0) value_error
      raise_if (not (ltb true_index (length candidates))) value_error
      raise_if (not (length simulated == length candidates)) value_error
      let branches = commit_branches c1 c2 mpk true_index w 0 candidates simulated
      (e_total, after) ← or_challenge t c1 c2 mpk candidates branches
      let e_real =
          floor_mod (pos 1 *ℤ sub_ℕ e_total (simulated_sum true_index 0 branches)) curve_order
      ok (respond true_index e_real ((w + r * e_real) % curve_order) 0 branches, after)

    -- The answer, and the transcript afterwards.
    unfoldable pub verify_or :
        (c1 c2 mpk : L.Point) (candidates : List ℕ)
        → List (OrBranch L)
        → Transcript
        → Fallible (Bool × Transcript)
    unfolding check_branches or_challenge sum_challenges
    verify_or c1 c2 mpk candidates branches t =
        if not (length branches == length candidates)
        then ok (false, t)
        else if not (check_branches c1 c2 mpk candidates branches)
        then ok (false, t)
        else do
          (e, after) ← or_challenge t c1 c2 mpk candidates branches
          ok (sum_challenges branches % curve_order == e, after)

    -- `bind_budget` in the mode `atMost`
    unfoldable pub bind_budget_at_most : Transcript → (B : ℕ) → Fallible Transcript
    bind_budget_at_most t B = do
      t1 ← append t (text "budget:mode") (1 ∷ [])
      append_scalar t1 (text "budget:B") (B % curve_order)

    unfoldable pub prove_budget_at_most :
        (c1_sum c2_sum mpk : L.Point) (B r_sum v_sum : ℕ)
        → Transcript
        → (w : ℕ) → (simulated : List (ℕ × ℕ)) → Fallible (List (OrBranch L) × Transcript)
    unfolding bind_budget_at_most range_from prove_or
    prove_budget_at_most c1_sum c2_sum mpk B r_sum v_sum t w simulated = do
      bound ← bind_budget_at_most t B
      prove_or c1_sum c2_sum mpk (range_from 0 (B + 1)) r_sum v_sum bound w simulated

    unfoldable pub verify_budget_at_most :
        (c1_sum c2_sum mpk : L.Point) (B : ℕ)
        → List (OrBranch L)
        → Transcript
        → Fallible (Bool × Transcript)
    unfolding bind_budget_at_most range_from verify_or
    verify_budget_at_most c1_sum c2_sum mpk B branches t = do
      bound ← bind_budget_at_most t B
      verify_or c1_sum c2_sum mpk (range_from 0 (B + 1)) branches bound
