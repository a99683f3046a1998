-- ===== src/Dkg/Round2.antt =====
-- crypto/dkg.py: what a keyper knows once `round2` has returned.
use generalised_elgamal_voti.Shared.{
  ℕ, ◌%◌, ◌≡◌, inl, inr, sym, subst, arith, true, false, List, [], ◌∷◌, map, length, All, Elem,
  Distinct, ok, Bool-cases, Option-cases, refl, ◌∙◌, some,
}
use generalised_elgamal_voti.Shared.Keys.{number_key}
use generalised_elgamal_voti.Shared.Dict.{Dict, lookup, keys, lookup-Elem}
use generalised_elgamal_voti.Modular.{
  Congruent, Congruent-refl, Congruent-add, Congruent-trans, mod-Congruent,
}
use generalised_elgamal_voti.Params.{curve_order}
use generalised_elgamal_voti.Points.{PointLibrary, IsPrimeOrderGroup, mul}
use generalised_elgamal_voti.Dkg.Defs.{
  KeyperDkgState, verify_share, is_bad_dealer, find_bad_dealers, combine_received, sum_values,
  round2,
}
use generalised_elgamal_voti.Dkg.Feldman.{logarithm, commit-logarithm, verify_share_iff}
use generalised_elgamal_voti.Dkg.Received.{take_out}
use generalised_elgamal_voti.Dkg.Keys.{HaveLength, joint_polynomial}

-- Each entry is what its key reads.
entry_read :
    {V : Type 0} (e : ℕ × V) (d d' : Dict ℕ V)
    → ¬ Elem e.0 (keys d')
    → All (λ f. lookup f.0 d ≡ some f.1) d'
    → All (λ f. lookup f.0 (e ∷ d) ≡ some f.1) d'
entry_read e d [] out h = tt
entry_read e d ((k, v) ∷ d') out h =
    (ground (arith, λ (p : e.0 ≡ k). out (inl p)), entry_read e d d' (λ m. out (inr m)) h.1)

pub lookup-entries :
    {V : Type 0} (d : Dict ℕ V) → Distinct (keys d) → All (λ f. lookup f.0 d ≡ some f.1) d
lookup-entries [] h = tt
lookup-entries ((k, v) ∷ d) h = (ground arith, entry_read (k, v) d d h.0 (lookup-entries d h.1))

module _ (L : PointLibrary) where
  good_dealers :
      (all : Dict ℕ (List L.Point)) (i quorum : ℕ) (received : Dict ℕ ℕ)
      → find_bad_dealers L all i quorum received ≡ []
      → All (λ r. is_bad_dealer L all i quorum r.0 r.1 ≡ false) received
  unfolding find_bad_dealers
  good_dealers all i quorum [] h = tt
  good_dealers all i quorum ((d, share) ∷ received) h =
      elim (Bool-cases (is_bad_dealer L all i quorum d share)) [
        | inl bad ↦ absurd (nonempty (rw (bad, find_bad_dealers) at h))
        | inr good ↦ (good, good_dealers all i quorum received (rw (good, find_bad_dealers) at h))
      ]
    where
      nonempty : {ds : List ℕ} → d ∷ ds ≡ [] → ⊥
      nonempty e = cc

  -- A dealer that is not refused published a vector of the right length, which the share fits.
  good_dealer :
      (all : Dict ℕ (List L.Point)) (i quorum d share : ℕ) (comms : List L.Point)
      → lookup d all ≡ some comms
      → is_bad_dealer L all i quorum d share ≡ false
      → (length comms ≡ quorum) × (verify_share L comms i share ≡ true)
  unfolding is_bad_dealer
  good_dealer all i quorum d share comms e h = ground arith

  pub record Outcome (s : KeyperDkgState L) (all : Dict ℕ (List L.Point)) (received : Dict ℕ ℕ)
      (s' : KeyperDkgState L) (share : ℕ) (public : L.Point) : Type 0 where
    pub good : All (λ r. is_bad_dealer L all s.keyper_id s.quorum r.0 r.1 ≡ false) received
    pub combined : share ≡ sum_values received % curve_order
    pub public_key : public ≡ mul L L.generator share
    pub stored : s'.combined_share ≡ some share

  combine_received-ok :
      (s : KeyperDkgState L) (received : Dict ℕ ℕ) (bad : List ℕ) {s' : KeyperDkgState L}
      {share : ℕ} {public : L.Point}
      → combine_received L s received bad ≡ ok (s', share, public)
      → (bad ≡ [])
        × (share ≡ sum_values received % curve_order)
        × (public ≡ mul L L.generator share)
        × (s'.combined_share ≡ some share)
  unfolding combine_received
  combine_received-ok s received [] h = ground arith
  combine_received-ok s received (d ∷ ds) h = cc

  pub round2-Outcome :
      (s : KeyperDkgState L) (all : Dict ℕ (List L.Point)) (received : Dict ℕ ℕ)
      {s' : KeyperDkgState L} {share : ℕ} {public : L.Point}
      → round2 L s all received ≡ ok (s', share, public)
      → Outcome s all received s' share public
  unfolding round2
  round2-Outcome s all received h =
      let (none_bad, combined, public_key, stored) = combine_received-ok s received _ h in
      record {
        good = good_dealers all s.keyper_id s.quorum received none_bad;
        combined = combined;
        public_key = public_key;
        stored = stored;
      }

module _ (L : PointLibrary) (laws : IsPrimeOrderGroup L) (all : Dict ℕ (List L.Point))
    (i quorum : ℕ) where
  abbrev IsGood : ℕ × ℕ → Type 0
  IsGood r = is_bad_dealer L all i quorum r.0 r.1 ≡ false

  -- A dealer that is not refused published a vector.
  good_known : (d share : ℕ) → is_bad_dealer L all i quorum d share ≡ false → Elem d (keys all)
  unfolding is_bad_dealer
  good_known d share h = elim (Option-cases (lookup d all)) [
    | inl missing ↦ absurd (refused (sym (rw (is_bad_dealer, missing) refl) ∙ h))
    | inr (comms, there) ↦ lookup-Elem d comms all there
  ]
    where
      refused : true ≡ false → ⊥
      refused e = cc

  received_known :
      (received : Dict ℕ ℕ)
      → All IsGood received
      → (x : ℕ) → Elem x (keys received)
      → Elem x (keys all)
  received_known [] good x m = absurd m
  received_known ((d, share) ∷ received) good x (inl here) =
      subst (λ y. Elem y (keys all)) (sym here) (good_known d share good.0)
  received_known ((d, share) ∷ received) good x (inr there) = received_known received good.1 x there

  received-joint :
      (part : Dict ℕ (List L.Point)) (received : Dict ℕ ℕ)
      → Distinct (keys part)
      → Distinct (keys received)
      → ((x : ℕ) → Elem x (keys part) → Elem x (keys received))
      → ((x : ℕ) → Elem x (keys received) → Elem x (keys part))
      → All (λ e. lookup e.0 all ≡ some e.1) part
      → All IsGood received
      → HaveLength quorum part
        × Congruent curve_order (sum_values received) (joint_polynomial L laws part i)
  unfolding joint_polynomial
  received-joint [] [] u once heard known reads good = (tt, Congruent-refl curve_order 0)
  received-joint [] ((d, share) ∷ received) u once heard known reads good =
      absurd (known d (inl refl))
  received-joint ((d, comms) ∷ part) received u once heard known reads good =
      let (share, rest, t) = take_out IsGood d received (heard d (inl refl)) in
      let (one, others) = t.holds good in
      let (absent, rest_once) = t.once once in
      let (len, fits) = good_dealer L all i quorum d share comms reads.0 one in
      let (lens, c) =
        received-joint part rest u.1 rest_once
          (λ x m. elim (t.kept x (heard x (inr m))) [
            | inl e ↦ absurd (u.0 (subst (λ y. Elem y (keys part)) e m))
            | inr r ↦ r
          ])
          (λ x m. elim (known x (t.from x m)) [
            | inl e ↦ absurd (absent (subst (λ y. Elem y (keys rest)) e m))
            | inr r ↦ r
          ])
          reads.1 others in
      (
        (len, lens),
        rw t.total (
            Congruent-add curve_order
              ((verify_share_iff L laws (map (logarithm L laws) comms) i share).0 (
                subst (λ cs. verify_share L cs i share ≡ true) (sym (commit-logarithm L laws comms))
                  fits))
              c),
      )

  -- A keyper that has heard from every dealer holds the value of the joint polynomial at its index.
  pub Outcome-joint :
      {s s' : KeyperDkgState L} {received : Dict ℕ ℕ} {share : ℕ} {public : L.Point}
      → Distinct (keys all)
      → Distinct (keys received)
      → ((d : ℕ) → Elem d (keys all) → Elem d (keys received))
      → s.keyper_id ≡ i
      → s.quorum ≡ quorum
      → Outcome L s all received s' share public
      → HaveLength quorum all × Congruent curve_order share (joint_polynomial L laws all i)
  Outcome-joint {s} {s'} {received} {share} distinct once heard id_eq quorum_eq o =
      let (lens, c) =
        received-joint all received distinct once heard (received_known received good)
          (lookup-entries all distinct) good in
      (
        lens,
        Congruent-trans curve_order
            (rw o.combined (mod-Congruent curve_order (sum_values received))) c,
      )
    where
      good : All (λ r. is_bad_dealer L all i quorum r.0 r.1 ≡ false) received
      good =
          subst (λ n. All (λ r. is_bad_dealer L all i n r.0 r.1 ≡ false) received) quorum_eq
            (subst (λ n. All (λ r. is_bad_dealer L all n s.quorum r.0 r.1 ≡ false) received) id_eq
              o.good)
