-- ===== src/Ballot/Ranges.antt =====
-- crypto/ballot.py: the range proofs of an honest ballot, and the sum of its ciphertexts.
use generalised_elgamal_voti.Shared.{
  ℕ, zero, suc, ◌+◌, ◌%◌, ◌<◌, ◌≤◌, ◌≡◌, refl, sym, ap, ap₂, ◌∙◌, arith, true, false, List, [], ◌∷◌,
  length, All, some, get_elem?, ltb, ok,
}
use generalised_elgamal_voti.Shared.Bytes.{Bytes, encode as text, big_endian, length-big_endian}
use generalised_elgamal_voti.Modular.{Congruent-sym, mod-Congruent}
use generalised_elgamal_voti.Params.{curve_order}
use generalised_elgamal_voti.Points.{PointLibrary, IsPrimeOrderGroup, HasCodec, mul, add}
use generalised_elgamal_voti.Points.Laws.{
  mul_congr, mul-add, mul-zero, add_interchange, add-identity,
}
use generalised_elgamal_voti.Elgamal.{Ciphertext, sum_from, sum_cts}
use generalised_elgamal_voti.Elgamal.Homomorphism.{Encrypts}
use generalised_elgamal_voti.Transcript.{Transcript}
use generalised_elgamal_voti.Transcript.Totality.{append-ok}
use generalised_elgamal_voti.Proofs.{OrBranch, range_from}
use generalised_elgamal_voti.Proofs.Completeness.{prove_or-verify_or}
use generalised_elgamal_voti.Ballot.Defs.{
  RangeNonces, sum_of, vote_out_of_range, encrypt_votes, prove_ranges, verify_ranges, reduce_all,
}
use generalised_elgamal_voti.Ballot.Reading.{u16be-ok, AreProofs}

length-range_from : (start n : ℕ) → length (range_from start n) ≡ n
unfolding range_from
length-range_from start zero = refl
length-range_from start (suc n) = ap suc (length-range_from (suc start) n)

get_elem?-range_from : (start n k : ℕ) → k < n → get_elem? (range_from start n) k ≡ some (start + k)
unfolding range_from
get_elem?-range_from start zero k h = absurd (omega arith)
get_elem?-range_from start (suc n) zero h = ap some (omega arith)
get_elem?-range_from start (suc n) (suc k) h =
    get_elem?-range_from (suc start) n k (omega arith) ∙ ap some (omega arith)

-- No vote is above the budget.
abbrev pub InRange : (budget : ℕ) → List ℕ → Type 0
InRange budget = All (λ v. v ≤ budget)

pub vote_out_of_range-InRange :
    (budget : ℕ) (votes : List ℕ) → InRange budget votes → vote_out_of_range budget votes ≡ false
unfolding vote_out_of_range
vote_out_of_range-InRange budget [] h = refl
vote_out_of_range-InRange budget (v ∷ votes) (h, hs) =
    let low : ltb budget v ≡ false = ground arith in
    rw low (vote_out_of_range-InRange budget votes hs)

-- The simulated pairs of every range proof: one for each of `n` branches.
abbrev pub HasSims : (n : ℕ) → List RangeNonces → Type 0
HasSims n = All (λ (r : RangeNonces). length r.sims ≡ n)

module _ (L : PointLibrary) where
  pub length-reduce_all : (rs : List ℕ) → length (reduce_all L rs) ≡ length rs
  unfolding reduce_all
  length-reduce_all [] = refl
  length-reduce_all (r ∷ rs) = ap suc (length-reduce_all rs)

  pub length-encrypt_votes :
      (mpk : L.Point) (votes rs : List ℕ)
      → length rs ≡ length votes
      → length (encrypt_votes L mpk votes rs) ≡ length votes
  unfolding encrypt_votes
  length-encrypt_votes mpk [] rs h = refl
  length-encrypt_votes mpk (v ∷ votes) [] h = h
  length-encrypt_votes mpk (v ∷ votes) (r ∷ rs) h =
      ap suc (length-encrypt_votes mpk votes rs (omega arith))

module _ (keccak : Bytes → Bytes) (L : PointLibrary) (laws : IsPrimeOrderGroup L)
    (codec : HasCodec L 96) (mpk : L.Point) where
  -- The provers and the verifier's loop run in step.
  pub prove_ranges-verify_ranges :
      (budget : ℕ)
      → budget < 65535
      → (j : ℕ) (votes rs : List ℕ) (nonces : List RangeNonces) (t : Transcript)
      → length rs ≡ length votes
      → length nonces ≡ length votes
      → HasSims (budget + 1) nonces
      → InRange budget votes
      → j + length votes ≤ 65536
      → (proofs : List (List (OrBranch L))) × (after : Transcript) × (prove_ranges keccak L mpk
            (range_from 0 (budget + 1))
            j
            (encrypt_votes L mpk votes rs)
            rs
            votes
            nonces
            t
          ≡ ok (proofs, after))
        × (length proofs ≡ length votes)
        × AreProofs L codec (budget + 1) proofs
        × (verify_ranges keccak L mpk
              (range_from 0 (budget + 1))
              j
              (encrypt_votes L mpk votes rs)
              proofs
              t
            ≡ ok (true, after))
  unfolding prove_ranges verify_ranges encrypt_votes
  prove_ranges-verify_ranges budget small j [] [] [] t h k sims low few =
      ([], t, refl, refl, tt, refl)
  prove_ranges-verify_ranges budget small j [] (r ∷ rs) nonces t h k sims low few =
      absurd (omega arith)
  prove_ranges-verify_ranges budget small j [] [] (n ∷ nonces) t h k sims low few =
      absurd (omega arith)
  prove_ranges-verify_ranges budget small j (v ∷ votes) [] nonces t h k sims low few =
      absurd (omega arith)
  prove_ranges-verify_ranges budget small j (v ∷ votes) (r ∷ rs) [] t h k sims low few =
      absurd (omega arith)
  prove_ranges-verify_ranges budget small j (v ∷ votes) (r ∷ rs) (n ∷ nonces) t h k (sim, sims)
        (low, lows) few =
      let (t1, q1) =
        append-ok t (text "ballot:range") (big_endian 2 j) (omega arith)
          (omega (arith, length-big_endian 2 j)) in
      let ct : Ciphertext L = (mul L L.generator r, add L (mul L mpk r) (mul L L.generator v)) in
      let encrypts : Encrypts L mpk v ct = record { randomness = r; first = refl; second = refl } in
      let size = length-range_from 0 (budget + 1) in
      let (proof, t2, proved, full, reduced, verified) =
        prove_or-verify_or keccak L laws codec mpk (range_from 0 (budget + 1)) v v ct encrypts
          (get_elem?-range_from 0 (budget + 1) v (omega arith) ∙ ap some (omega arith))
          (omega arith) t1 n.w n.sims (sim ∙ sym size) in
      let (proofs, after, p, l, each, c) =
        prove_ranges-verify_ranges budget small (suc j) votes rs nonces t2 (omega arith)
          (omega arith) sims lows (omega arith) in
      (
        proof ∷ proofs,
        after,
        rw (u16be-ok j (omega arith), q1, proved, p),
        ap suc l,
        ((full ∙ size, reduced), each),
        rw (u16be-ok j (omega arith), q1, verified, c),
      )

  -- Ciphertexts with the randomness written out.
  EncryptsWith : (r m : ℕ) → Ciphertext L → Type 0
  EncryptsWith r m ct =
      (ct.0 ≡ mul L L.generator r) × (ct.1 ≡ add L (mul L mpk r) (mul L L.generator m))

  sum_from-EncryptsWith :
      (r m : ℕ) (acc : Ciphertext L) (votes rs : List ℕ)
      → length rs ≡ length votes
      → EncryptsWith r m acc
      → EncryptsWith
          (r + sum_of rs)
          (m + sum_of votes)
          (sum_from L acc (encrypt_votes L mpk votes rs))
  unfolding sum_from encrypt_votes sum_of EncryptsWith
  sum_from-EncryptsWith r m acc [] [] h (a, b) =
      let p : r + 0 ≡ r = omega arith in let q : m + 0 ≡ m = omega arith in rw (p, q) (a, b)
  sum_from-EncryptsWith r m acc [] (s ∷ rs) h e = absurd (omega arith)
  sum_from-EncryptsWith r m acc (v ∷ votes) [] h e = absurd (omega arith)
  sum_from-EncryptsWith r m acc (v ∷ votes) (s ∷ rs) h (a, b) =
      let p : r + (s + sum_of rs) ≡ r + s + sum_of rs = omega arith in
      let q : m + (v + sum_of votes) ≡ m + v + sum_of votes = omega arith in
      rw (p, q)
        (sum_from-EncryptsWith (r + s) (m + v) _ votes rs (omega arith) (
          ap (λ P. add L P (mul L L.generator s)) a ∙ sym (mul-add L laws L.generator r s),
          ap (λ P. add L P (add L (mul L mpk s) (mul L L.generator v))) b
              ∙ add_interchange L laws _ _ _ _
              ∙ ap₂ (add L) (sym (mul-add L laws mpk r s)) (sym (mul-add L laws L.generator m v)),
        ))

  -- The sum of the ciphertexts encrypts the sum of the votes, with the randomness that `build_ballot`
  -- hands to the budget proof.
  pub sum_cts-encrypt_votes :
      (votes rs : List ℕ)
      → length rs ≡ length votes
      → (h : Encrypts L mpk (sum_of votes) (sum_cts L (encrypt_votes L mpk votes rs)))
        × (h.randomness ≡ sum_of rs % curve_order)
  unfolding sum_cts EncryptsWith
  sum_cts-encrypt_votes votes rs h =
      let R = sum_of rs in
      let start : EncryptsWith 0 0 (L.identity, L.identity) = (
        sym (mul-zero L laws L.generator),
        sym (
            ap₂ (add L) (mul-zero L laws mpk) (mul-zero L laws L.generator)
            ∙ add-identity L laws L.identity),
      ) in
      let (a, b) = sum_from-EncryptsWith 0 0 (L.identity, L.identity) votes rs h start in
      let reduce : (P : L.Point) → mul L P (0 + R) ≡ mul L P (R % curve_order) = λ P.
        ap (mul L P) (omega arith)
        ∙ mul_congr L laws P R (R % curve_order)
            (Congruent-sym curve_order (mod-Congruent curve_order R)) in
      (
        record {
          randomness = R % curve_order;
          first = a ∙ reduce L.generator;
          second = b ∙ ap₂ (add L) (reduce mpk) (ap (mul L L.generator) (omega arith));
        },
        refl,
      )
