-- ===== src/Dkg/Keys.antt =====
-- crypto/dkg.py: the joint key and the keypers' public shares, by the joint polynomial.
use generalised_elgamal_voti.Shared.{
  ℕ, zero, suc, ◌+◌, ◌<◌, ◌≡◌, inl, inr, refl, sym, ap, subst, ◌∙◌, arith, List, [], ◌∷◌, map,
  length, All, length-map, ok, ==_iff, leb, Bool-cases,
}
use generalised_elgamal_voti.Shared.Dict.{Dict, sorted_items, place}
use generalised_elgamal_voti.Modular.{Congruent-refl}
use generalised_elgamal_voti.Modular.Interpolation.{DegreeBelow, sum-DegreeBelow}
use generalised_elgamal_voti.Params.{curve_order}
use generalised_elgamal_voti.Points.{PointLibrary, IsPrimeOrderGroup, mul, add}
use generalised_elgamal_voti.Points.Laws.{
  mul-add, add_assoc, add-identity, mul-zero, identity-add, mul_generates,
}
use generalised_elgamal_voti.Dkg.Defs.{
  expected_share, wrong_lengths, refuse, check_commitment_lengths, sum_constants, derive_joint_mpk,
  sum_shares, derive_mpk_share,
}
use generalised_elgamal_voti.Dkg.Feldman.{
  polynomial, polynomial-DegreeBelow, logarithm, commit-logarithm, expected_share-commit,
}

-- Every vector has the length `quorum`.
abbrev pub HaveLength : {A : Type 0} → ℕ → Dict ℕ (List A) → Type 0
HaveLength quorum = All (λ e. length e.1 ≡ quorum)

module _ (L : PointLibrary) where
  place-HaveLength :
      (quorum : ℕ) (e : ℕ × List L.Point) (d : Dict ℕ (List L.Point))
      → length e.1 ≡ quorum
      → HaveLength quorum d
      → HaveLength quorum (place e d)
  place-HaveLength quorum e [] h hs = (h, tt)
  place-HaveLength quorum e (f ∷ d) h hs = elim (Bool-cases (leb e.0 f.0)) [
    | inl before ↦ rw before (h, hs)
    | inr after ↦ rw after (hs.0, place-HaveLength quorum e d h hs.1)
  ]

  sorted-HaveLength :
      (quorum : ℕ) (d : Dict ℕ (List L.Point))
      → HaveLength quorum d
      → HaveLength quorum (sorted_items d)
  sorted-HaveLength quorum [] h = tt
  sorted-HaveLength quorum (e ∷ d) h =
      place-HaveLength quorum e (sorted_items d) h.0 (sorted-HaveLength quorum d h.1)

  wrong_lengths-none :
      (quorum : ℕ) (d : Dict ℕ (List L.Point)) → HaveLength quorum d → wrong_lengths L quorum d ≡ []
  unfolding wrong_lengths
  wrong_lengths-none quorum [] h = refl
  wrong_lengths-none quorum ((d, c) ∷ rest) h =
      rw ((==_iff (length c) quorum).1 h.0) (wrong_lengths-none quorum rest h.1)

  check_passes :
      (quorum : ℕ) (d : Dict ℕ (List L.Point))
      → HaveLength quorum d
      → check_commitment_lengths L d quorum ≡ ok tt
  unfolding check_commitment_lengths
  check_passes quorum d h =
      ap (refuse L) (wrong_lengths-none quorum (sorted_items d) (sorted-HaveLength quorum d h))

module _ (L : PointLibrary) (laws : IsPrimeOrderGroup L) where
  -- The sum of the dealers' polynomials.
  unfoldable pub joint_polynomial : Dict ℕ (List L.Point) → ℕ → ℕ
  joint_polynomial [] x = 0
  joint_polynomial ((d, comms) ∷ rest) x =
      polynomial (map (logarithm L laws) comms) x + joint_polynomial rest x

  pub joint_polynomial-DegreeBelow :
      (quorum : ℕ) (d : Dict ℕ (List L.Point))
      → HaveLength quorum d
      → DegreeBelow curve_order quorum (joint_polynomial d)
  unfolding joint_polynomial
  joint_polynomial-DegreeBelow quorum [] h = zero_function quorum
    where
      zero_function : (n : ℕ) → DegreeBelow curve_order n (λ x. 0)
      zero_function zero = λ x. Congruent-refl curve_order 0
      zero_function (suc n) =
          λ a. (λ x. 0, zero_function n, λ x. record { left = 0; right = 0; same = omega arith })
  joint_polynomial-DegreeBelow quorum ((d, comms) ∷ rest) h =
      sum-DegreeBelow curve_order quorum _ _
        (subst (λ n. DegreeBelow curve_order n (polynomial (map (logarithm L laws) comms)))
          (length-map comms (logarithm L laws) ∙ h.0)
          (polynomial-DegreeBelow curve_order (map (logarithm L laws) comms)))
        (joint_polynomial-DegreeBelow quorum rest h.1)

  joint_polynomial-place :
      (e : ℕ × List L.Point) (d : Dict ℕ (List L.Point)) (x : ℕ)
      → joint_polynomial (place e d) x ≡ joint_polynomial (e ∷ d) x
  unfolding joint_polynomial
  joint_polynomial-place e [] x = refl
  joint_polynomial-place e (f ∷ d) x = elim (Bool-cases (leb e.0 f.0)) [
    | inl before ↦ rw before
    | inr after ↦ rw after (omega (arith, joint_polynomial-place e d x))
  ]

  joint_polynomial-sorted :
      (d : Dict ℕ (List L.Point)) (x : ℕ)
      → joint_polynomial (sorted_items d) x ≡ joint_polynomial d x
  unfolding joint_polynomial
  joint_polynomial-sorted [] x = refl
  joint_polynomial-sorted (e ∷ d) x =
      joint_polynomial-place e (sorted_items d) x
      ∙ ap (λ (t : ℕ). polynomial (map (logarithm L laws) e.1) x + t) (joint_polynomial-sorted d x)

  sum_shares-joint :
      (x : ℕ) (acc : L.Point) (d : Dict ℕ (List L.Point))
      → sum_shares L x acc d ≡ add L acc (mul L L.generator (joint_polynomial d x))
  unfolding sum_shares joint_polynomial
  sum_shares-joint x acc [] = sym (ap (add L acc) (mul-zero L laws _) ∙ add-identity L laws acc)
  sum_shares-joint x acc ((d, comms) ∷ rest) =
      sum_shares-joint x (expected_share L x acc 1 comms) rest
      ∙ ap (λ P. add L P (mul L L.generator (joint_polynomial rest x))) head
      ∙ add_assoc L laws _ _ _
      ∙ ap (add L acc) (sym (mul-add L laws L.generator _ _))
    where
      head :
          expected_share L x acc 1 comms
          ≡ add L acc (mul L L.generator (polynomial (map (logarithm L laws) comms) x))
      head =
          ap (expected_share L x acc 1) (sym (commit-logarithm L laws comms))
          ∙ expected_share-commit L laws x acc 1 (map (logarithm L laws) comms)
          ∙ ap (λ (t : ℕ). add L acc (mul L L.generator t)) (omega arith)

  sum_constants-joint :
      (k : ℕ) (acc : L.Point) (d : Dict ℕ (List L.Point))
      → HaveLength (suc k) d
      → sum_constants L acc d ≡ ok (add L acc (mul L L.generator (joint_polynomial d 0)))
  unfolding sum_constants joint_polynomial
  sum_constants-joint k acc [] h =
      ap ok (sym (ap (add L acc) (mul-zero L laws _) ∙ add-identity L laws acc))
  sum_constants-joint k acc ((d, []) ∷ rest) h = absurd (omega (arith, h.0))
  sum_constants-joint k acc ((d, c ∷ comms) ∷ rest) h =
      sum_constants-joint k (add L acc c) rest h.1
      ∙ ap ok (
          add_assoc L laws _ _ _
          ∙ ap (add L acc) (
              ap (λ P. add L P (mul L L.generator (joint_polynomial rest 0)))
                (mul_generates L laws c).1
              ∙ sym (mul-add L laws L.generator _ _)
              ∙ ap (mul L L.generator) (omega arith)))

  -- The joint key is the joint polynomial at 0, times the generator.
  pub derive_joint_mpk-joint :
      (quorum : ℕ) (d : Dict ℕ (List L.Point))
      → 0 < quorum
      → HaveLength quorum d
      → derive_joint_mpk L d quorum ≡ ok (mul L L.generator (joint_polynomial d 0))
  unfolding derive_joint_mpk
  derive_joint_mpk-joint zero d h hs = elim h [ ]
  derive_joint_mpk-joint (suc k) d h hs = rw (check_passes L (suc k) d hs) (
      sum_constants-joint k L.identity (sorted_items d) (sorted-HaveLength L (suc k) d hs)
      ∙ ap ok (identity-add L laws _ ∙ ap (mul L L.generator) (joint_polynomial-sorted d 0)))

  -- The public share of a keyper is the joint polynomial at its index, times the generator.
  pub derive_mpk_share-joint :
      (i quorum : ℕ) (d : Dict ℕ (List L.Point))
      → HaveLength quorum d
      → derive_mpk_share L i d quorum ≡ ok (mul L L.generator (joint_polynomial d i))
  unfolding derive_mpk_share
  derive_mpk_share-joint i quorum d hs = rw (check_passes L quorum d hs) (
      ap ok (
        sum_shares-joint i L.identity (sorted_items d)
        ∙ identity-add L laws _
        ∙ ap (mul L L.generator) (joint_polynomial-sorted d i)))
