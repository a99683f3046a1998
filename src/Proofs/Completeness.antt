-- ===== src/Proofs/Completeness.antt =====
-- crypto/proofs.py: an honest OR proof is made without an error and verifies.
use native.Mathlib.Nat.{mod-eq_of_lt}
use generalised_elgamal_voti.Shared.{
  All, ℕ, suc, ◌+◌, ◌*◌, ◌%◌, ◌<◌, ◌≡◌, refl, sym, ap, ◌∙◌, arith, true, false, List, [], ◌∷◌, ◌++◌,
  length, length-append, some, get_elem?, inl, inr, Bool-cases, ltb, ◌==◌, ==_iff, ok, Fallible,
}
use generalised_elgamal_voti.Shared.Bytes.{
  Bytes, encode as text, decimal, length-decimal, big_endian, length-big_endian,
}
use generalised_elgamal_voti.Shared.Int.{pos, sub_ℕ, floor_mod, ◌*ℤ◌}
use generalised_elgamal_voti.Modular.{Congruent, mod_eq}
use generalised_elgamal_voti.Modular.Signed.{floor_mod-lt, floor_mod-sub-Congruent}
use generalised_elgamal_voti.Params.{curve_order, curve_order_big, mod_order-lt}
use generalised_elgamal_voti.Points.{PointLibrary, IsPrimeOrderGroup, HasCodec, mul}
use generalised_elgamal_voti.Elgamal.{Ciphertext}
use generalised_elgamal_voti.Elgamal.Homomorphism.{Encrypts}
use generalised_elgamal_voti.Transcript.{Transcript}
use generalised_elgamal_voti.Transcript.Totality.{
  u32be-ok, append-ok, append_scalar-ok, append_point-ok, challenge-reduced,
}
use generalised_elgamal_voti.Proofs.Defs.{without_plaintext}
use generalised_elgamal_voti.Proofs.Plaintext.{without_plaintext-add}
use generalised_elgamal_voti.Proofs.Branches.{
  OrBranch, indexed, append_candidates, bind_statement_or, append_branches, commit_branches,
  simulated_sum, respond, or_challenge, prove_or, verify_or,
}
use generalised_elgamal_voti.Proofs.Or.{
  IsReduced, respond-IsReduced, get_elem?-IsAt, get_elem?-lt, length-commit_branches,
  length-respond, respond-check_branches, sum_challenges-respond,
}

length-bracketed : (xs : Bytes) → length (text "[" ++ (xs ++ text "]")) ≡ length xs + 2
length-bracketed xs = omega (arith, length-append xs (text "]"))

-- The tag of a branch is short.
pub length-indexed :
    (head : Bytes) (i : ℕ)
    → length head < 16
    → i < 4000000000
    → length (indexed head i) < 4294967296
unfolding indexed
length-indexed head i h k =
    let outer : length (indexed head i)
        ≡ length head + length (text "[" ++ (decimal i ++ text "]")) =
      length-append head (text "[" ++ (decimal i ++ text "]")) in
    omega (arith, outer, length-bracketed (decimal i), length-decimal i)

append_candidates-ok :
    (t : Transcript) (i : ℕ) (ms : List ℕ)
    → i + length ms < 4000000000
    → (u : Transcript) × (append_candidates t i ms ≡ ok u)
unfolding append_candidates
append_candidates-ok t i [] h = (t, refl)
append_candidates-ok t i (m ∷ ms) h =
    let (t1, q1) =
      append_scalar-ok t (indexed (text "or:m") i) (m % curve_order)
        (length-indexed (text "or:m") i (omega arith) (omega arith)) in
    let (u, q) = append_candidates-ok t1 (suc i) ms (omega arith) in (u, rw (q1, q))

-- The verifier recomputes the prover's challenge: it depends on the real challenge.
e_real_sum :
    (e_total s : ℕ)
    → e_total < curve_order
    → (s + floor_mod (pos 1 *ℤ sub_ℕ e_total s) curve_order) % curve_order ≡ e_total
e_real_sum e_total s below =
    let e_real = floor_mod (pos 1 *ℤ sub_ℕ e_total s) curve_order in
    let same : Congruent curve_order (e_real + 1 * s) (1 * e_total) =
      floor_mod-sub-Congruent curve_order (omega (arith, curve_order_big)) 1 e_total s in
    ap (λ (n : ℕ). n % curve_order) (omega arith)
    ∙ mod_eq curve_order same
    ∙ ap (λ (n : ℕ). n % curve_order) (omega arith)
    ∙ mod-eq_of_lt below

module _ (keccak : Bytes → Bytes) (L : PointLibrary) (laws : IsPrimeOrderGroup L)
    (codec : HasCodec L 96) where
  -- Filling in the real challenge does not change what the commitments add to the transcript.
  append_branches-respond :
      (t : Transcript) (i true_index e z j : ℕ) (branches : List (OrBranch L))
      → i + length branches < 4000000000
      → (u : Transcript) × (append_branches L t i branches ≡ ok u)
        × (append_branches L t i (respond L true_index e z j branches) ≡ ok u)
  unfolding append_branches respond
  append_branches-respond t i true_index e z j [] h = (t, refl, refl)
  append_branches-respond t i true_index e z j (br ∷ branches) h =
      let (t1, q1) =
        append_point-ok L codec t (indexed (text "or:a1") i) br.a1
          (length-indexed (text "or:a1") i (omega arith) (omega arith)) in
      let (t2, q2) =
        append_point-ok L codec t1 (indexed (text "or:a2") i) br.a2
          (length-indexed (text "or:a2") i (omega arith) (omega arith)) in
      let (u, q, p) =
        append_branches-respond t2 (suc i) true_index e z (suc j) branches (omega arith) in
      (
        u,
        rw (q1, q2, q),
        elim (Bool-cases (j == true_index)) [
          | inl here ↦ rw (here, q1, q2, p)
          | inr later ↦ rw (later, q1, q2, p)
        ],
      )

  bind_statement_or-ok :
      (t : Transcript) (c1 c2 mpk : L.Point) (ms : List ℕ)
      → length ms < 4000000000
      → (u : Transcript) × (bind_statement_or L t c1 c2 mpk ms ≡ ok u)
  unfolding bind_statement_or
  bind_statement_or-ok t c1 c2 mpk ms h =
      let (t1, q1) = append_point-ok L codec t (text "or:P2") L.generator (omega arith) in
      let (t2, q2) = append_point-ok L codec t1 (text "or:mpk") mpk (omega arith) in
      let (t3, q3) = append_point-ok L codec t2 (text "or:C1") c1 (omega arith) in
      let (t4, q4) = append_point-ok L codec t3 (text "or:C2") c2 (omega arith) in
      let (t5, q5) =
        append-ok t4 (text "or:|M|") (big_endian 4 (length ms)) (omega arith)
          (omega (arith, length-big_endian 4 (length ms))) in
      let (u, q) = append_candidates-ok t5 0 ms (omega arith) in
      (u, rw (q1, q2, q3, q4, u32be-ok (length ms) (omega arith), q5, q))

  or_challenge-respond :
      (t : Transcript) (c1 c2 mpk : L.Point) (ms : List ℕ) (branches : List (OrBranch L))
      → length ms < 4000000000
      → length branches ≡ length ms
      → (e : ℕ) × (u : Transcript) × (or_challenge L keccak t c1 c2 mpk ms branches ≡ ok (e, u))
        × (e < curve_order)
        × ((true_index e_real z : ℕ)
            → or_challenge L keccak t c1 c2 mpk ms (respond L true_index e_real z 0 branches)
              ≡ ok (e, u))
  unfolding or_challenge
  or_challenge-respond t c1 c2 mpk ms branches h k =
      let (t1, q1) = bind_statement_or-ok t c1 c2 mpk ms h in
      let (t2, q2, _) = append_branches-respond t1 0 0 0 0 0 branches (omega arith) in
      let (e, u, q, below) = challenge-reduced keccak t2 (text "or:e") (omega arith) in
      (
        e,
        u,
        rw (q1, q2, q),
        below,
        λ true_index e_real z.
            let (t3, p2, p3) =
              append_branches-respond t1 0 true_index e_real z 0 branches (omega arith) in
            rw (q1, p3, sym (ok_injective t2 t3 (sym q2 ∙ p2)), q),
      )
    where
      ok_injective : (a b : Transcript) → ◌≡◌ {A = Fallible Transcript} (ok a) (ok b) → a ≡ b
      ok_injective a b s = cc

  -- For a ciphertext that encrypts the candidate at `true_index`, a proof with its randomness is made
  -- without an error, whatever nonces are drawn, it has one branch for each candidate, with scalars
  -- below the order, and it verifies from the same transcript and leaves the same transcript behind,
  -- when there are fewer than 4000000000 candidates.
  pub prove_or-verify_or :
      (mpk : L.Point) (candidates : List ℕ) (m true_index : ℕ) (ct : Ciphertext L)
      → (h : Encrypts L mpk m ct) → get_elem? candidates true_index ≡ some m
      → length candidates < 4000000000
      → (t : Transcript) (w : ℕ) (simulated : List (ℕ × ℕ)) → length simulated ≡ length candidates
      → (branches : List (OrBranch L)) × (after : Transcript) × (prove_or L keccak ct.0 ct.1 mpk
            candidates h.randomness true_index t w simulated
          ≡ ok (branches, after))
        × (length branches ≡ length candidates)
        × All (IsReduced L) branches
        × (verify_or L keccak ct.0 ct.1 mpk candidates branches t ≡ ok (true, after))
  unfolding prove_or verify_or
  prove_or-verify_or mpk candidates m true_index ct h at few t w simulated lengths =
      let inside : true_index < length candidates = get_elem?-lt true_index m candidates at in
      let r = h.randomness in
      let committed = commit_branches L ct.0 ct.1 mpk true_index w 0 candidates simulated in
      let long : length committed ≡ length candidates =
        length-commit_branches L laws ct.0 ct.1 mpk true_index w 0 candidates simulated lengths in
      let (e, u, q, below, again) =
        or_challenge-respond t ct.0 ct.1 mpk candidates committed few long in
      let s = simulated_sum L true_index 0 committed in
      let e_real = floor_mod (pos 1 *ℤ sub_ℕ e s) curve_order in
      let z = (w + r * e_real) % curve_order in
      let longer : length (respond L true_index e_real z 0 committed) ≡ length candidates =
        length-respond L laws true_index e_real z 0 committed ∙ long in
      let second =
        ap (λ P. without_plaintext L P m) h.second ∙ without_plaintext-add L laws (mul L mpk r) m in
      let guard1 : (length candidates == 0) ≡ false = ground arith in
      let guard2 : ltb true_index (length candidates) ≡ true = ground arith in
      let guard3 : (length simulated == length candidates) ≡ true = ground arith in
      let guard4 : (length (respond L true_index e_real z 0 committed) == length candidates)
          ≡ true =
        (==_iff _ _).1 longer in
      let checked =
        respond-check_branches L laws ct.0 ct.1 mpk m r true_index w e_real 0 candidates simulated
          h.first second (get_elem?-IsAt m true_index true_index 0 candidates (omega arith) at) in
      let sum =
        sum_challenges-respond L laws true_index e_real z 0 committed (omega arith) (omega arith) in
      (
        respond L true_index e_real z 0 committed,
        u,
        rw (guard1, guard2, guard3, q),
        longer,
        respond-IsReduced L ct.0 ct.1 mpk true_index w e_real z 0 candidates simulated
            (floor_mod-lt _ curve_order (omega (arith, curve_order_big))) (mod_order-lt _),
        rw (
          guard4,
          checked,
          again true_index e_real z,
          sum,
          e_real_sum e s below,
          (==_iff e e).1 refl,
        ),
      )
