-- ===== src/Examples/Crypto.antt =====
-- A committee of three with a quorum of two, over the group of scalars: key generation, encryption and
-- threshold decryption.
use native.Mathlib.Decide.{ℕ_discrete}
use generalised_elgamal_voti.Shared.{
  ℕ, ◌+◌, ◌*◌, ◌%◌, ◌≤◌, ◌<◌, ◌≡◌, ◌≢◌, ◌↔◌, refl, arith, true, List, [], ◌∷◌, map, All, Distinct,
  inl, inr, Option, none, some, ok, length,
}
use generalised_elgamal_voti.Shared.Dict.{Dict, keys}
use generalised_elgamal_voti.Modular.{Congruent, Congruent-refl}
use generalised_elgamal_voti.Params.{
  curve_order, curve_order_big, scalar_to_bytes, scalar_from_bytes, scalar_from_bytes-to_bytes,
}
use generalised_elgamal_voti.Points.{PointLibrary, IsPrimeOrderGroup, HasCodec, mul, add, eq}
use generalised_elgamal_voti.Points.Scalars.{Scalar, scalar_library, scalar_laws, scalar_codec}
use generalised_elgamal_voti.Elgamal.{Ciphertext, encrypt, sum_cts}
use generalised_elgamal_voti.Elgamal.Homomorphism.{
  Encrypts, encrypt-Encrypts, total, sum_cts-Encrypts,
}
use generalised_elgamal_voti.Recovery.{
  lagrange_coefficient, combine_shares, threshold_decrypt, baby_step_giant_step,
}
use generalised_elgamal_voti.Recovery.Lagrange.{AreIndices, shares_of, combine_shares-DegreeBelow}
use generalised_elgamal_voti.Recovery.Bsgs.{baby_step_giant_step-found}
use generalised_elgamal_voti.Dkg.{
  KeyperDkgState, partial_decrypt, round1, round2, verify_share, derive_joint_mpk, derive_mpk_share,
}
use generalised_elgamal_voti.Dkg.Decryption.{
  Completed, Completed-combine_shares, Completed-derive_mpk_share,
}
use generalised_elgamal_voti.Dkg.Ceremony.{all_commitments, shares_for, shares_for-round2}
use generalised_elgamal_voti.Dkg.Feldman.{
  polynomial, polynomial-DegreeBelow, commit, verify_share_iff, round1-verify_share,
}
use generalised_elgamal_voti.Dkg.Threshold.{Completed-threshold_decrypt}

abbrev G2 : PointLibrary
G2 = scalar_library 96

abbrev laws : IsPrimeOrderGroup G2
laws = scalar_laws 96

codec : HasCodec G2 96
unfolding curve_order
codec = scalar_codec 96 (omega arith)

abbrev commitments : Dict ℕ (List Scalar)
commitments =
    (1, mul G2 G2.generator 5 ∷ mul G2 G2.generator 2 ∷ [])
    ∷ (2, mul G2 G2.generator 7 ∷ mul G2 G2.generator 1 ∷ [])
    ∷ (3, mul G2 G2.generator 11 ∷ mul G2 G2.generator 4 ∷ [])
    ∷ []

abbrev keyper : ℕ → KeyperDkgState G2
keyper i = record {
  keyper_id = i;
  n = 3;
  quorum = 2;
  coefficients = none;
  commitments = none;
  shares_for_others = [];
  combined_share = none;
  public_key_share = none;
}

abbrev received : ℕ → Dict ℕ ℕ
received i = (1, 5 + 2 * i) ∷ (2, 7 + i) ∷ (3, 11 + 4 * i) ∷ []

-- The same shares for keyper 3 in another order.
abbrev shuffled : Dict ℕ ℕ
shuffled = (3, 23) ∷ (1, 11) ∷ (2, 10) ∷ []

abbrev after : ℕ → ℕ → KeyperDkgState G2
after i share = record (keyper i) {
  combined_share = some share;
  public_key_share = some (mul G2 G2.generator share);
}

lagrange_at_1 : lagrange_coefficient 1 (1 ∷ 3 ∷ []) 101 ≡ ok 52
unfolding lagrange_coefficient generalised_elgamal_voti.Modular.Inverse.mod_inverse
    generalised_elgamal_voti.Shared.Int.floor_mod generalised_elgamal_voti.Shared.Int.◌*ℤ◌
lagrange_at_1 = refl

round2_1 :
    round2 G2 (keyper 1) commitments (received 1) ≡ ok (after 1 30, 30, mul G2 G2.generator 30)
unfolding round2 mul add eq curve_order ℕ_discrete
round2_1 = refl

round2_3 : round2 G2 (keyper 3) commitments shuffled ≡ ok (after 3 44, 44, mul G2 G2.generator 44)
unfolding round2 mul add eq curve_order ℕ_discrete
round2_3 = refl

abbrev completed_1 : Completed G2 commitments 2 1 30
completed_1 = record {
  before = keyper 1;
  after = after 1 30;
  received = received 1;
  public = mul G2 G2.generator 30;
  once = (λ m. ground arith, (λ m. ground arith, (λ m. m, tt)));
  heard = λ d m. m;
  at_index = refl;
  at_quorum = refl;
  returned = round2_1;
}

abbrev completed_3 : Completed G2 commitments 2 3 44
completed_3 = record {
  before = keyper 3;
  after = after 3 44;
  received = shuffled;
  public = mul G2 G2.generator 44;
  once = (λ m. ground arith, (λ m. ground arith, (λ m. m, tt)));
  heard = λ d m. elim m [
    | inl e ↦ inr (inl e)
    | inr n ↦ elim n [
      | inl e ↦ inr (inr (inl e))
      | inr o ↦ elim o [ inl e ↦ inl e | inr p ↦ absurd p ]
    ]
  ];
  at_index = refl;
  at_quorum = refl;
  returned = round2_3;
}

-- The joint polynomial is 23 + 7 x.
abbrev secret : ℕ → ℕ
secret i = 23 + 7 * i

abbrev ids : List ℕ
ids = 1 ∷ 3 ∷ []

dealers-Distinct : Distinct (keys commitments)
dealers-Distinct = (λ m. ground arith, (λ m. ground arith, (λ m. m, tt)))

ids-AreIndices : AreIndices ids
ids-AreIndices = record { distinct = (λ m. ground arith, (λ m. m, tt)); bounded = omega arith }

runs : All (λ i. Completed G2 commitments 2 i (secret i)) ids
runs = (completed_1, (completed_3, tt))

abbrev joint_key : Scalar
joint_key = mul G2 G2.generator 23

joint_key_derived : derive_joint_mpk G2 commitments 2 ≡ ok joint_key
unfolding derive_joint_mpk mul add curve_order
joint_key_derived = refl

abbrev ciphertext : Ciphertext G2
ciphertext = let (c1, c2, _) = encrypt G2 joint_key 6 1234 in (c1, c2)

ciphertext-Encrypts : Encrypts G2 joint_key 6 ciphertext
ciphertext-Encrypts = encrypt-Encrypts G2 laws joint_key 6 1234

order_above : 9 < curve_order
order_above = omega (arith, curve_order_big)

Completed-threshold_decrypt_example :
    threshold_decrypt G2 ciphertext.0 ciphertext.1 (shares_of G2 ciphertext.0 secret ids) 9
    ≡ ok (some 6)
Completed-threshold_decrypt_example =
    Completed-threshold_decrypt G2 laws codec commitments 2 secret ids joint_key 6 9 ciphertext
      dealers-Distinct (omega arith) (omega arith) ids-AreIndices runs joint_key_derived
      ciphertext-Encrypts (omega arith) order_above

Completed-combine_shares_example :
    (msk : ℕ) × (derive_joint_mpk G2 commitments 2 ≡ ok (mul G2 G2.generator msk))
    × (combine_shares G2 (shares_of G2 (mul G2 G2.generator 77) secret ids)
        ≡ ok (mul G2 (mul G2 G2.generator 77) msk))
Completed-combine_shares_example =
    Completed-combine_shares G2 laws commitments 2 secret ids (mul G2 G2.generator 77)
      dealers-Distinct (omega arith) (omega arith) ids-AreIndices runs

Completed-derive_mpk_share_example :
    (derive_mpk_share G2 3 commitments 2 ≡ ok (mul G2 G2.generator 44))
    × (mul G2 G2.generator 44 ≡ mul G2 G2.generator 44)
    × (partial_decrypt G2 (after 3 44) ciphertext.0 ≡ ok (mul G2 ciphertext.0 44))
Completed-derive_mpk_share_example =
    Completed-derive_mpk_share G2 laws commitments 2 3 44 ciphertext.0 dealers-Distinct completed_3

verify_share_iff_example :
    (verify_share G2 (commit G2 laws (5 ∷ 2 ∷ [])) 3 11 ≡ true)
    ↔ Congruent curve_order 11 (polynomial (5 ∷ 2 ∷ []) 3)
verify_share_iff_example = verify_share_iff G2 laws (5 ∷ 2 ∷ []) 3 11

round1-verify_share_example :
    let (s', published, shares) = round1 G2 (5 ∷ 2 ∷ []) (keyper 1) 1 3 2 in
    (length published ≡ 2) × All (λ dealt. verify_share G2 published dealt.0 dealt.1 ≡ true) shares
round1-verify_share_example = round1-verify_share G2 laws (5 ∷ 2 ∷ []) (keyper 1) 1 3 2

combine_shares-DegreeBelow_example :
    combine_shares G2 (shares_of G2 G2.generator (polynomial (5 ∷ 2 ∷ [])) ids)
    ≡ ok (mul G2 G2.generator (polynomial (5 ∷ 2 ∷ []) 0))
combine_shares-DegreeBelow_example =
    combine_shares-DegreeBelow G2 laws G2.generator ids (polynomial (5 ∷ 2 ∷ []))
      (polynomial (5 ∷ 2 ∷ [])) ids-AreIndices (polynomial-DegreeBelow curve_order (5 ∷ 2 ∷ []))
      (Congruent-refl curve_order _, (Congruent-refl curve_order _, tt))

baby_step_giant_step-found_example : baby_step_giant_step G2 (mul G2 G2.generator 6) 9 ≡ some 6
baby_step_giant_step-found_example =
    baby_step_giant_step-found G2 laws codec 6 9 (omega arith) order_above

sum_cts-Encrypts_example :
    Encrypts G2 joint_key (total (6 ∷ 6 ∷ [])) (sum_cts G2 (ciphertext ∷ ciphertext ∷ []))
sum_cts-Encrypts_example =
    sum_cts-Encrypts G2 laws joint_key (6 ∷ 6 ∷ []) (ciphertext ∷ ciphertext ∷ [])
      (ciphertext-Encrypts, (ciphertext-Encrypts, tt))

scalar_from_bytes-to_bytes_example :
    scalar_from_bytes (scalar_to_bytes 300) ≡ ok (300 % curve_order)
scalar_from_bytes-to_bytes_example = scalar_from_bytes-to_bytes 300

-- The dealers of the commitments, with their polynomials.
abbrev dealers : Dict ℕ (KeyperDkgState G2 × List ℕ)
dealers =
    (1, (keyper 1, 5 ∷ 2 ∷ [])) ∷ (2, (keyper 2, 7 ∷ 1 ∷ [])) ∷ (3, (keyper 3, 11 ∷ 4 ∷ [])) ∷ []

published-Distinct : Distinct (keys (all_commitments G2 3 2 dealers))
unfolding all_commitments
published-Distinct = (λ m. ground arith, (λ m. ground arith, (λ m. m, tt)))

shares_for-round2_example :
    (sent : Dict ℕ ℕ) × (later : KeyperDkgState G2) × (share : ℕ) × (public : G2.Point)
    × (shares_for G2 3 2 3 dealers ≡ ok sent)
    × (keys sent ≡ keys (all_commitments G2 3 2 dealers))
    × (round2 G2 (keyper 3) (all_commitments G2 3 2 dealers) sent ≡ ok (later, share, public))
shares_for-round2_example =
    shares_for-round2 G2 laws 3 2 3 (omega arith) (omega arith) dealers (keyper 3)
      published-Distinct (refl, (refl, (refl, tt))) refl refl
