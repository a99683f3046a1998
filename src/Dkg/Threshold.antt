-- ===== src/Dkg/Threshold.antt =====
-- From key generation to the plaintext: crypto/dkg.py, crypto/elgamal.py and crypto/recovery.py.
use generalised_elgamal_voti.Shared.{
  ℕ, ◌≤◌, ◌<◌, ◌≡◌, ap, subst, ◌∙◌, List, length, All, Distinct, ok, some,
}
use generalised_elgamal_voti.Shared.Dict.{Dict, keys}
use generalised_elgamal_voti.Params.{curve_order}
use generalised_elgamal_voti.Points.{PointLibrary, IsPrimeOrderGroup, HasCodec, mul}
use generalised_elgamal_voti.Elgamal.{Ciphertext}
use generalised_elgamal_voti.Elgamal.Homomorphism.{Encrypts, Encrypts-decrypt}
use generalised_elgamal_voti.Recovery.{combine_shares, threshold_decrypt, baby_step_giant_step}
use generalised_elgamal_voti.Recovery.Lagrange.{AreIndices, shares_of}
use generalised_elgamal_voti.Recovery.Bsgs.{baby_step_giant_step-found}
use generalised_elgamal_voti.Dkg.Defs.{derive_joint_mpk}
use generalised_elgamal_voti.Dkg.Decryption.{Completed, Completed-combine_shares}

module _ (L : PointLibrary) (laws : IsPrimeOrderGroup L) (codec : HasCodec L 96) where
  threshold_decrypt-Encrypts :
      (msk m max_val : ℕ) (ct : Ciphertext L) (shares : List (ℕ × L.Point))
      → Encrypts L (mul L L.generator msk) m ct
      → m ≤ max_val
      → max_val < curve_order
      → combine_shares L shares ≡ ok (mul L ct.0 msk)
      → threshold_decrypt L ct.0 ct.1 shares max_val ≡ ok (some m)
  unfolding threshold_decrypt
  threshold_decrypt-Encrypts msk m max_val ct shares e small order combined = rw combined (
      ap ok (
        ap (λ P. baby_step_giant_step L P max_val) (Encrypts-decrypt L laws msk m ct e)
        ∙ baby_step_giant_step-found L laws codec m max_val small order))

  -- Whatever commitments and shares the dealers sent, if at least `quorum` keypers completed round 2
  -- on the same commitments, each with a share from every dealer that published commitments, and a
  -- ciphertext encrypts m under the joint key derived from them, the partial decryptions of those keypers
  -- give back m, for m within the bound of the search and a bound below the curve order.
  pub Completed-threshold_decrypt :
      (all : Dict ℕ (List L.Point)) (quorum : ℕ) (secret : ℕ → ℕ) (ids : List ℕ) (mpk : L.Point)
      (m max_val : ℕ) (ct : Ciphertext L)
      → Distinct (keys all)
      → 0 < quorum
      → quorum ≤ length ids
      → AreIndices ids
      → All (λ i. Completed L all quorum i (secret i)) ids
      → derive_joint_mpk L all quorum ≡ ok mpk
      → Encrypts L mpk m ct
      → m ≤ max_val
      → max_val < curve_order
      → threshold_decrypt L ct.0 ct.1 (shares_of L ct.0 secret ids) max_val ≡ ok (some m)
  Completed-threshold_decrypt all quorum secret ids mpk m max_val ct distinct pos enough valid runs
        key e small order =
      let (msk, derived, combined) =
        Completed-combine_shares L laws all quorum secret ids ct.0 distinct pos enough valid runs in
      let same : mpk ≡ mul L L.generator msk = cc in
      threshold_decrypt-Encrypts msk m max_val ct (shares_of L ct.0 secret ids)
        (subst (λ P. Encrypts L P m ct) same e) small order combined
