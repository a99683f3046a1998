-- ===== src/Dkg/Feldman.antt =====
-- crypto/dkg.py: dealt shares and Feldman's check, against the committed polynomial.
use generalised_elgamal_voti.Shared.{
  ℕ, zero, suc, ◌+◌, ◌*◌, ◌%◌, ◌≡◌, ◌↔◌, refl, sym, ap, ap₂, subst, fun_ext, ◌∙◌, arith, true, List,
  [], ◌∷◌, map, length, All, length-map,
}
use generalised_elgamal_voti.Modular.{
  Congruent, Congruent-refl, Congruent-sym, Congruent-trans, Congruent-of_eq, Congruent-add,
  Congruent-scale, mod-Congruent,
}
use generalised_elgamal_voti.Modular.Interpolation.{DegreeBelow, linear-DegreeBelow}
use generalised_elgamal_voti.Params.{curve_order}
use generalised_elgamal_voti.Points.{PointLibrary, IsPrimeOrderGroup, mul, add}
use generalised_elgamal_voti.Points.Laws.{
  mul_congr, mul-add, mul-mul, add_assoc, add-identity, mul-zero, identity-add, mul_injective, eq→≡,
  ≡→eq, mul_generates,
}
use generalised_elgamal_voti.Dkg.Defs.{
  KeyperDkgState, eval_share, deal_shares, expected_share, verify_share, round1,
}

-- The polynomial with the coefficients `cs`, the constant first.
abbrev pub polynomial : List ℕ → ℕ → ℕ
polynomial [] x = 0
polynomial (c ∷ cs) x = c + x * polynomial cs x

pub polynomial-DegreeBelow : (q : ℕ) (cs : List ℕ) → DegreeBelow q (length cs) (polynomial cs)
polynomial-DegreeBelow q [] = λ x. Congruent-refl q 0
polynomial-DegreeBelow q (c ∷ cs) =
    subst (DegreeBelow q (suc (length cs))) (fun_ext λ x. omega arith)
      (linear-DegreeBelow q (length cs) c 0 (polynomial cs) (polynomial-DegreeBelow q cs))

-- The loop of `round1` evaluates the polynomial.
pub eval_share-Congruent :
    (x val x_power : ℕ) (cs : List ℕ)
    → Congruent curve_order (eval_share x val x_power cs) (val + x_power * polynomial cs x)
unfolding eval_share
eval_share-Congruent x val x_power [] = Congruent-of_eq curve_order _ _ (omega arith)
eval_share-Congruent x val x_power (c ∷ cs) =
    Congruent-trans curve_order
      (eval_share-Congruent x ((val + c * x_power) % curve_order) ((x_power * x) % curve_order) cs)
      (Congruent-trans curve_order
        (Congruent-add curve_order (mod-Congruent curve_order (val + c * x_power))
          (Congruent-scale curve_order (polynomial cs x) (mod-Congruent curve_order (x_power * x))))
        (Congruent-of_eq curve_order _ _ (omega arith)))

module _ (L : PointLibrary) (laws : IsPrimeOrderGroup L) where
  abbrev pub commit : List ℕ → List L.Point
  commit = map (mul L L.generator)

  -- A point as a multiple of the generator.
  abbrev pub logarithm : L.Point → ℕ
  logarithm P = (mul_generates L laws P).0

  pub commit-logarithm : (comms : List L.Point) → commit (map logarithm comms) ≡ comms
  commit-logarithm [] = refl
  commit-logarithm (P ∷ comms) = ap₂ ◌∷◌ (sym (mul_generates L laws P).1) (commit-logarithm comms)

  pub expected_share-commit :
      (x : ℕ) (acc : L.Point) (x_power : ℕ) (cs : List ℕ)
      → expected_share L x acc x_power (commit cs)
        ≡ add L acc (mul L L.generator (x_power * polynomial cs x))
  unfolding expected_share
  expected_share-commit x acc x_power [] = sym (
      ap (add L acc) (ap (mul L L.generator) (omega arith) ∙ mul-zero L laws _)
      ∙ add-identity L laws acc)
  expected_share-commit x acc x_power (c ∷ cs) =
      expected_share-commit x (add L acc (mul L (mul L L.generator c) x_power))
        ((x_power * x) % curve_order) cs
      ∙ add_assoc L laws _ _ _
      ∙ ap (add L acc) (
          ap (λ P. add L P (mul L L.generator ((x_power * x) % curve_order * polynomial cs x)))
            (mul-mul L laws L.generator c x_power)
          ∙ sym (mul-add L laws L.generator _ _)
          ∙ mul_congr L laws L.generator _ _ (
              Congruent-trans curve_order
                (Congruent-add curve_order (Congruent-refl curve_order (c * x_power)) (
                  Congruent-scale curve_order (polynomial cs x)
                    (mod-Congruent curve_order (x_power * x))))
                (Congruent-of_eq curve_order _ _ (omega arith))))

  expected_share_from-identity :
      (x : ℕ) (cs : List ℕ)
      → expected_share L x L.identity 1 (commit cs) ≡ mul L L.generator (polynomial cs x)
  expected_share_from-identity x cs =
      expected_share-commit x L.identity 1 cs
      ∙ identity-add L laws _
      ∙ ap (mul L L.generator) (omega arith)

  -- A share passes Feldman's check against the commitments to a polynomial exactly when it is,
  -- modulo the curve order, the value of the polynomial at the recipient's index.
  pub verify_share_iff :
      (cs : List ℕ) (i share : ℕ)
      → (verify_share L (commit cs) i share ≡ true) ↔ Congruent curve_order share (polynomial cs i)
  unfolding verify_share
  verify_share_iff cs i share = (
    λ h.
        Congruent-sym curve_order
          (mul_injective L laws _ _ (sym (expected_share_from-identity i cs) ∙ eq→≡ L laws _ _ h)),
    λ c. ≡→eq L laws _ _ (
        expected_share_from-identity i cs
        ∙ mul_congr L laws L.generator _ _ (Congruent-sym curve_order c)),
  )

  deal_shares-verify_share :
      (cs : List ℕ) (i k : ℕ)
      → All (λ dealt. verify_share L (commit cs) dealt.0 dealt.1 ≡ true) (deal_shares cs i k)
  unfolding deal_shares
  deal_shares-verify_share cs i zero = tt
  deal_shares-verify_share cs i (suc k) = (
    (verify_share_iff cs i _).1 (
        Congruent-trans curve_order (eval_share-Congruent i 0 1 cs)
          (Congruent-of_eq curve_order _ _ (omega arith))),
    deal_shares-verify_share cs (i + 1) k,
  )

  -- Every share that round 1 deals passes the check of its recipient against the published
  -- commitments, of which there is one for each coefficient.
  pub round1-verify_share :
      (drawn : List ℕ) (s : KeyperDkgState L) (keyper_id n quorum : ℕ)
      → let (s', commitments, shares) = round1 L drawn s keyper_id n quorum in
        (length commitments ≡ length drawn)
        × All (λ dealt. verify_share L commitments dealt.0 dealt.1 ≡ true) shares
  unfolding round1
  round1-verify_share drawn s keyper_id n quorum =
      (length-map drawn (mul L L.generator), deal_shares-verify_share drawn 1 n)
