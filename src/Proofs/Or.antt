-- ===== src/Proofs/Or.antt =====
-- crypto/proofs.py: the branches of an honest OR proof satisfy the verifier's equations.
use generalised_elgamal_voti.Shared.{
  All, ℕ, zero, suc, ◌+◌, ◌*◌, ◌%◌, ◌<◌, ◌≤◌, ◌≡◌, refl, sym, ap, ◌∙◌, arith, true, List, [], ◌∷◌,
  length, some, get_elem?, inl, inr, Bool-cases, ◌==◌, ==_iff,
}
use generalised_elgamal_voti.Modular.{mod-Congruent}
use generalised_elgamal_voti.Params.{curve_order, mod_order-lt}
use generalised_elgamal_voti.Points.{PointLibrary, IsPrimeOrderGroup, mul, add}
use generalised_elgamal_voti.Points.Laws.{
  mul_congr, mul-add, mul-mul, mul-zero, add_assoc, add-identity, ≡→eq,
}
use generalised_elgamal_voti.Proofs.Defs.{negate, without_plaintext}
use generalised_elgamal_voti.Proofs.Branches.{
  OrBranch, real_branch, simulated_branch, commit_branches, simulated_sum, respond, sum_challenges,
  check_branch, check_branches,
}
use generalised_elgamal_voti.Proofs.Dleq.{negate-Congruent}

-- The candidate of index `true_index` is `m`, in a list that starts at the index `i`.
abbrev pub IsAt : (m true_index i : ℕ) → List ℕ → Type 0
IsAt m true_index i [] = Unit
IsAt m true_index i (x ∷ xs) = (i ≡ true_index → x ≡ m) × IsAt m true_index (suc i) xs

IsAt-before : (m true_index i : ℕ) (xs : List ℕ) → true_index < i → IsAt m true_index i xs
IsAt-before m true_index i [] h = tt
IsAt-before m true_index i (x ∷ xs) h =
    ((λ e. absurd (omega arith)), IsAt-before m true_index (suc i) xs (omega arith))

some_injective : (a b : ℕ) → some a ≡ some b → a ≡ b
some_injective a b e = cc

pub get_elem?-IsAt :
    (m k true_index i : ℕ) (xs : List ℕ)
    → i + k ≡ true_index
    → get_elem? xs k ≡ some m
    → IsAt m true_index i xs
get_elem?-IsAt m k true_index i [] h e = tt
get_elem?-IsAt m zero true_index i (x ∷ xs) h e =
    ((λ _. some_injective x m e), IsAt-before m true_index (suc i) xs (omega arith))
get_elem?-IsAt m (suc k) true_index i (x ∷ xs) h e =
    ((λ g. absurd (omega arith)), get_elem?-IsAt m k true_index (suc i) xs (omega arith) e)

pub get_elem?-lt : (k m : ℕ) (xs : List ℕ) → get_elem? xs k ≡ some m → k < length xs
get_elem?-lt k m [] e = absurd cc
get_elem?-lt zero m (x ∷ xs) e = omega arith
get_elem?-lt (suc k) m (x ∷ xs) e = omega (arith, get_elem?-lt k m xs e)

-- The scalars of a branch are below the order.
abbrev pub IsReduced : (L : PointLibrary) → OrBranch L → Type 0
IsReduced L br = (br.e < curve_order) × (br.z < curve_order)

module _ (L : PointLibrary) where
  simulated_branch-IsReduced :
      (c1 c2 mpk : L.Point) (m : ℕ) (sim : ℕ × ℕ) → IsReduced L (simulated_branch L c1 c2 mpk m sim)
  unfolding simulated_branch
  simulated_branch-IsReduced c1 c2 mpk m sim = (mod_order-lt sim.0, mod_order-lt sim.1)

  pub respond-IsReduced :
      (c1 c2 mpk : L.Point) (true_index w e z i : ℕ) (ms : List ℕ) (sims : List (ℕ × ℕ))
      → e < curve_order
      → z < curve_order
      → All
          (IsReduced L)
          (respond L true_index e z i (commit_branches L c1 c2 mpk true_index w i ms sims))
  unfolding respond commit_branches
  respond-IsReduced c1 c2 mpk true_index w e z i [] sims h k = tt
  respond-IsReduced c1 c2 mpk true_index w e z i (m ∷ ms) [] h k = tt
  respond-IsReduced c1 c2 mpk true_index w e z i (m ∷ ms) (sim ∷ sims) h k =
      let rest = respond-IsReduced c1 c2 mpk true_index w e z (suc i) ms sims h k in
      elim (Bool-cases (i == true_index)) [
        | inl here ↦ rw here ((h, k), rest)
        | inr later ↦ rw later (simulated_branch-IsReduced c1 c2 mpk m sim, rest)
      ]

module _ (L : PointLibrary) (laws : IsPrimeOrderGroup L) where
  -- The prover's `A - e * B` satisfies the verifier's equation.
  simulated_equation :
      (A B : L.Point) (e : ℕ) → A ≡ add L (add L A (mul L B (negate e))) (mul L B e)
  simulated_equation A B e = sym (
      add_assoc L laws A (mul L B (negate e)) (mul L B e)
      ∙ ap (add L A) (
          sym (mul-add L laws B (negate e) e)
          ∙ mul_congr L laws B (negate e + e) 0 (negate-Congruent e)
          ∙ mul-zero L laws B)
      ∙ add-identity L laws A)

  real_equation :
      (base : L.Point) (w r e : ℕ)
      → mul L base ((w + r * e) % curve_order) ≡ add L (mul L base w) (mul L (mul L base r) e)
  real_equation base w r e =
      mul_congr L laws base _ (w + r * e) (mod-Congruent curve_order (w + r * e))
      ∙ mul-add L laws base w (r * e)
      ∙ ap (add L (mul L base w)) (sym (mul-mul L laws base r e))

  simulated_branch-check_branch :
      (c1 c2 mpk : L.Point) (m : ℕ) (sim : ℕ × ℕ)
      → check_branch L c1 c2 mpk m (simulated_branch L c1 c2 mpk m sim) ≡ true
  unfolding check_branch simulated_branch
  simulated_branch-check_branch c1 c2 mpk m sim =
      rw
        (
          ≡→eq L laws _ _ (
              simulated_equation (mul L L.generator (sim.1 % curve_order)) c1
                (sim.0 % curve_order)),
          ≡→eq L laws _ _ (
              simulated_equation (mul L mpk (sim.1 % curve_order)) (without_plaintext L c2 m)
                (sim.0 % curve_order)),
        )
        refl

  real_branch-check_branch :
      (c1 c2 mpk : L.Point) (m r w e : ℕ)
      → c1 ≡ mul L L.generator r
      → without_plaintext L c2 m ≡ mul L mpk r
      → check_branch L c1 c2 mpk m
          (record (real_branch L mpk w) { e = e; z = (w + r * e) % curve_order })
        ≡ true
  unfolding check_branch real_branch
  real_branch-check_branch c1 c2 mpk m r w e first second =
      rw
        (
          first,
          second,
          ≡→eq L laws _ _ (real_equation L.generator w r e),
          ≡→eq L laws _ _ (real_equation mpk w r e),
        )
        refl

  pub length-commit_branches :
      (c1 c2 mpk : L.Point) (true_index w i : ℕ) (ms : List ℕ) (sims : List (ℕ × ℕ))
      → length sims ≡ length ms
      → length (commit_branches L c1 c2 mpk true_index w i ms sims) ≡ length ms
  unfolding commit_branches
  length-commit_branches c1 c2 mpk true_index w i [] sims h = refl
  length-commit_branches c1 c2 mpk true_index w i (m ∷ ms) [] h = h
  length-commit_branches c1 c2 mpk true_index w i (m ∷ ms) (sim ∷ sims) h =
      ap suc (length-commit_branches c1 c2 mpk true_index w (suc i) ms sims (omega arith))

  pub length-respond :
      (true_index e z i : ℕ) (branches : List (OrBranch L))
      → length (respond L true_index e z i branches) ≡ length branches
  unfolding respond
  length-respond true_index e z i [] = refl
  length-respond true_index e z i (br ∷ branches) =
      ap suc (length-respond true_index e z (suc i) branches)

  -- All the equations of an honest proof hold.
  pub respond-check_branches :
      (c1 c2 mpk : L.Point) (m r true_index w e i : ℕ) (ms : List ℕ) (sims : List (ℕ × ℕ))
      → c1 ≡ mul L L.generator r
      → without_plaintext L c2 m ≡ mul L mpk r
      → IsAt m true_index i ms
      → check_branches L c1 c2 mpk ms (
          respond L true_index e
            ((w + r * e) % curve_order)
            i
            (commit_branches L c1 c2 mpk true_index w i ms sims))
        ≡ true
  unfolding check_branches respond commit_branches
  respond-check_branches c1 c2 mpk m r true_index w e i [] sims first second at = refl
  respond-check_branches c1 c2 mpk m r true_index w e i (x ∷ ms) [] first second at = refl
  respond-check_branches c1 c2 mpk m r true_index w e i (x ∷ ms) (sim ∷ sims) first second
        (here, at) =
      elim (Bool-cases (i == true_index)) [
        | inl h ↦
            rw
              (
                h,
                here ((==_iff i true_index).0 h),
                real_branch-check_branch c1 c2 mpk m r w e first second,
                respond-check_branches c1 c2 mpk m r true_index w e (suc i) ms sims first second at,
              )
              refl
        | inr h ↦
            rw
              (
                h,
                simulated_branch-check_branch c1 c2 mpk x sim,
                respond-check_branches c1 c2 mpk m r true_index w e (suc i) ms sims first second at,
              )
              refl
      ]

  sum_challenges-respond_before :
      (true_index e z i : ℕ) (branches : List (OrBranch L))
      → true_index < i
      → sum_challenges L (respond L true_index e z i branches)
        ≡ simulated_sum L true_index i branches
  unfolding sum_challenges respond simulated_sum
  sum_challenges-respond_before true_index e z i [] h = refl
  sum_challenges-respond_before true_index e z i (br ∷ branches) h =
      ground (arith, sum_challenges-respond_before true_index e z (suc i) branches (omega arith))

  -- The real challenge makes up the sum.
  pub sum_challenges-respond :
      (true_index e z i : ℕ) (branches : List (OrBranch L))
      → i ≤ true_index
      → true_index < i + length branches
      → sum_challenges L (respond L true_index e z i branches)
        ≡ simulated_sum L true_index i branches + e
  unfolding sum_challenges respond simulated_sum
  sum_challenges-respond true_index e z i [] h k = absurd (omega arith)
  sum_challenges-respond true_index e z i (br ∷ branches) h k =
      elim (Bool-cases (i == true_index)) [
        | inl here ↦ rw here (
            omega (
              arith,
              sum_challenges-respond_before true_index e z (suc i) branches
                  (omega (arith, (==_iff i true_index).0 here)),
            ))
        | inr later ↦ rw later (
            omega (
              arith,
              sum_challenges-respond true_index e z (suc i) branches (ground arith) (omega arith),
            ))
      ]
