-- ===== src/Dkg/Decryption.antt =====
-- crypto/dkg.py with crypto/recovery.py: what a completed key generation guarantees of decryption.
use generalised_elgamal_voti.Shared.{
  ℕ, zero, suc, ◌≤◌, ◌<◌, ◌≡◌, ◌⊎◌, inl, inr, sym, ap, subst, ◌∙◌, arith, List, [], ◌∷◌, length,
  All, Elem, Distinct, ok,
}
use generalised_elgamal_voti.Shared.Dict.{Dict, keys}
use generalised_elgamal_voti.Modular.{Congruent, Congruent-sym}
use generalised_elgamal_voti.Modular.Interpolation.{DegreeBelow, weaken}
use generalised_elgamal_voti.Params.{curve_order}
use generalised_elgamal_voti.Points.{PointLibrary, IsPrimeOrderGroup, mul}
use generalised_elgamal_voti.Points.Laws.{mul_congr}
use generalised_elgamal_voti.Recovery.{combine_shares}
use generalised_elgamal_voti.Recovery.Lagrange.{AreIndices, shares_of, combine_shares-DegreeBelow}
use generalised_elgamal_voti.Dkg.Defs.{
  KeyperDkgState, round2, decrypt_with, partial_decrypt, derive_joint_mpk, derive_mpk_share,
}
use generalised_elgamal_voti.Dkg.Keys.{
  HaveLength, joint_polynomial, joint_polynomial-DegreeBelow, derive_joint_mpk-joint,
  derive_mpk_share-joint,
}
use generalised_elgamal_voti.Dkg.Round2.{round2-Outcome, Outcome-joint}

weaken_to : (q n m : ℕ) (f : ℕ → ℕ) → n ≤ m → DegreeBelow q n f → DegreeBelow q m f
weaken_to q n zero f h d = let e : n ≡ 0 = omega arith in subst (λ k. DegreeBelow q k f) e d
weaken_to q n (suc m) f h d = elim order [
  | inl below ↦ weaken q m f (weaken_to q n m f below d)
  | inr top ↦ subst (λ k. DegreeBelow q k f) top d
]
  where
    order : (n ≤ m) ⊎ (n ≡ suc m)
    order = grind arith

module _ (L : PointLibrary) where
  -- Keyper `i` ran `round2` on the published commitments, and it returned `share`. Every dealer that
  -- published commitments had sent the keyper a share, which `round2` does not check.
  pub record Completed (all : Dict ℕ (List L.Point)) (quorum i share : ℕ) : Type 0 where
    pub before : KeyperDkgState L
    pub after : KeyperDkgState L
    pub received : Dict ℕ ℕ
    pub public : L.Point
    pub once : Distinct (keys received)
    pub heard : (d : ℕ) → Elem d (keys all) → Elem d (keys received)
    pub at_index : before.keyper_id ≡ i
    pub at_quorum : before.quorum ≡ quorum
    pub returned : round2 L before all received ≡ ok (after, share, public)

module _ (L : PointLibrary) (laws : IsPrimeOrderGroup L) where
  Completed-joint :
      (all : Dict ℕ (List L.Point)) (quorum i share : ℕ)
      → Distinct (keys all)
      → Completed L all quorum i share
      → HaveLength quorum all × Congruent curve_order share (joint_polynomial L laws all i)
  Completed-joint all quorum i share distinct run =
      Outcome-joint L laws all i quorum distinct run.once run.heard run.at_index run.at_quorum
        (round2-Outcome L run.before all run.received run.returned)

  -- A keyper whose round 2 returned, and which had a share from every dealer that published
  -- commitments, holds the secret of the public share that anybody derives for its index from the
  -- commitments, and its partial decryption multiplies by that secret.
  pub Completed-derive_mpk_share :
      (all : Dict ℕ (List L.Point)) (quorum i share : ℕ) (c1 : L.Point)
      → Distinct (keys all)
      → (run : Completed L all quorum i share)
      → (derive_mpk_share L i all quorum ≡ ok run.public)
        × (run.public ≡ mul L L.generator share)
        × (partial_decrypt L run.after c1 ≡ ok (mul L c1 share))
  unfolding partial_decrypt
  Completed-derive_mpk_share all quorum i share c1 distinct run =
      let (lens, c) = Completed-joint all quorum i share distinct run in
      let o = round2-Outcome L run.before all run.received run.returned in
      (
        derive_mpk_share-joint L laws i quorum all lens
            ∙ ap ok
                (mul_congr L laws L.generator _ _ (Congruent-sym curve_order c) ∙ sym o.public_key),
        o.public_key,
        ap (λ s. decrypt_with L s c1) o.stored,
      )

  All-joint :
      (all : Dict ℕ (List L.Point)) (quorum : ℕ) (secret : ℕ → ℕ) (ids : List ℕ)
      → Distinct (keys all)
      → All (λ i. Completed L all quorum i (secret i)) ids
      → All (λ i. Congruent curve_order (secret i) (joint_polynomial L laws all i)) ids
  All-joint all quorum secret [] distinct runs = tt
  All-joint all quorum secret (i ∷ ids) distinct runs = (
    (Completed-joint all quorum i (secret i) distinct runs.0).1,
    All-joint all quorum secret ids distinct runs.1,
  )

  -- Whatever commitments and shares the dealers sent, if at least `quorum` keypers completed round 2
  -- on the same commitments, each with a share from every dealer that published commitments, the joint
  -- key is derived, it is some msk times the generator, and the partial decryptions of any c1 combine to
  -- msk times c1.
  pub Completed-combine_shares :
      (all : Dict ℕ (List L.Point)) (quorum : ℕ) (secret : ℕ → ℕ) (ids : List ℕ) (c1 : L.Point)
      → Distinct (keys all)
      → 0 < quorum
      → quorum ≤ length ids
      → AreIndices ids
      → All (λ i. Completed L all quorum i (secret i)) ids
      → (msk : ℕ) × (derive_joint_mpk L all quorum ≡ ok (mul L L.generator msk))
        × (combine_shares L (shares_of L c1 secret ids) ≡ ok (mul L c1 msk))
  Completed-combine_shares all quorum secret [] c1 distinct pos enough valid runs =
      absurd (omega arith)
  Completed-combine_shares all quorum secret (i ∷ ids) c1 distinct pos enough valid runs =
      let lens = (Completed-joint all quorum i (secret i) distinct runs.0).0 in
      (
        joint_polynomial L laws all 0,
        derive_joint_mpk-joint L laws quorum all pos lens,
        combine_shares-DegreeBelow L laws c1 (i ∷ ids) (joint_polynomial L laws all) secret valid
            (weaken_to curve_order quorum (length (i ∷ ids)) (joint_polynomial L laws all) enough
              (joint_polynomial-DegreeBelow L laws quorum all lens))
            (All-joint all quorum secret (i ∷ ids) distinct runs),
      )
