-- ===== src/Aggregation/Weighted.antt =====
-- core/aggregation.py: what the aggregate encrypts.
use generalised_elgamal_voti.Shared.{
  ℕ, zero, suc, ◌+◌, ◌*◌, ◌≡◌, refl, sym, subst, ap, ap₂, arith, List, [], ◌∷◌, length, replicate,
  ◌==◌, ◌/◌, ◌≤◌, false, ==_iff, Bool-cases, inl, inr, ok,
}
use generalised_elgamal_voti.Points.{PointLibrary, IsPrimeOrderGroup}
use generalised_elgamal_voti.Elgamal.{add_ct, scalar_mul_ct}
use generalised_elgamal_voti.Elgamal
use generalised_elgamal_voti.Elgamal.Homomorphism.{
  Encrypts, AllEncrypt, add_ct-Encrypts, scalar_mul_ct-Encrypts, identity-Encrypts,
}
use generalised_elgamal_voti.Envelopes.{Ciphertext}
use generalised_elgamal_voti.Admission.{AdmittedBallot}
use generalised_elgamal_voti.Aggregation.Defs.{
  scaled_weight, decode_ciphertext, add_weighted, add_ballot, aggregate_from, aggregate_points,
}

-- The totals after a vote vector of weight `w`.
unfoldable pub add_votes : (w : ℕ) → List ℕ → List ℕ → List ℕ
add_votes w [] vs = []
add_votes w (t ∷ ts) [] = t ∷ ts
add_votes w (t ∷ ts) (v ∷ vs) = (t + v * w) ∷ add_votes w ts vs

add_votes_zero : (ts vs : List ℕ) → add_votes 0 ts vs ≡ ts
unfolding add_votes
add_votes_zero [] vs = refl
add_votes_zero (t ∷ ts) [] = refl
add_votes_zero (t ∷ ts) (v ∷ vs) = ap₂ ◌∷◌ (omega arith) (add_votes_zero ts vs)

length-add_votes : (w : ℕ) (ts vs : List ℕ) → length (add_votes w ts vs) ≡ length ts
unfolding add_votes
length-add_votes w [] vs = refl
length-add_votes w (t ∷ ts) [] = refl
length-add_votes w (t ∷ ts) (v ∷ vs) = ap suc (length-add_votes w ts vs)

-- The weight in units of the scale, half a unit rounded up.
unfoldable pub half_up : (weight scale : ℕ) → ℕ
half_up weight scale = (weight + scale / 2) / scale

scaled_weight-ok :
    (weight scale : ℕ) → 1 ≤ scale → scaled_weight weight scale ≡ ok (half_up weight scale)
unfolding scaled_weight half_up
scaled_weight-ok weight scale h = let nonzero : (scale == 0) ≡ false = ground arith in rw nonzero

-- The tally of vote vectors, each with the scaled weight of its ballot.
unfoldable pub tally : (scale : ℕ) → List ℕ → List (AdmittedBallot × List ℕ) → List ℕ
tally scale ts [] = ts
tally scale ts ((ab, vs) ∷ cast) = tally scale (add_votes (half_up ab.weight scale) ts vs) cast

unfoldable pub ballots_of : List (AdmittedBallot × List ℕ) → List AdmittedBallot
ballots_of [] = []
ballots_of ((ab, _) ∷ cast) = ab ∷ ballots_of cast

module _ (L : PointLibrary) (mpk : L.Point) where
  -- The ciphertexts decode to encryptions of the votes, one for each.
  abbrev pub Carries : List ℕ → List Ciphertext → Type 0
  Carries [] cts = Unit
  Carries (v ∷ vs) [] = ⊥
  Carries (v ∷ vs) (ct ∷ cts) =
      ((p : Elgamal.Ciphertext L) × (decode_ciphertext L ct ≡ ok p) × Encrypts L mpk v p)
      × Carries vs cts

  abbrev pub AllCarry : (num_candidates : ℕ) → List (AdmittedBallot × List ℕ) → Type 0
  AllCarry n [] = Unit
  AllCarry n ((ab, vs) ∷ cast) =
      (length vs ≡ n) × Carries vs ab.envelope.ciphertexts × AllCarry n cast

module _ (L : PointLibrary) (laws : IsPrimeOrderGroup L) (mpk : L.Point) where
  add_weighted-AllEncrypt :
      (w : ℕ) (ts vs : List ℕ) (acc : List (Elgamal.Ciphertext L)) (cts : List Ciphertext)
      → length vs ≡ length ts
      → AllEncrypt L mpk ts acc
      → Carries L mpk vs cts
      → (r : List (Elgamal.Ciphertext L)) × (add_weighted L w acc cts ≡ ok r)
        × AllEncrypt L mpk (add_votes w ts vs) r
  unfolding add_weighted add_votes
  add_weighted-AllEncrypt w [] vs [] cts n e c = ([], refl, tt)
  add_weighted-AllEncrypt w [] vs (a ∷ acc) cts n e c = absurd e
  add_weighted-AllEncrypt w (t ∷ ts) vs [] cts n e c = absurd e
  add_weighted-AllEncrypt w (t ∷ ts) [] (a ∷ acc) cts n e c = absurd (omega arith)
  add_weighted-AllEncrypt w (t ∷ ts) (v ∷ vs) (a ∷ acc) [] n e c = absurd c
  add_weighted-AllEncrypt w (t ∷ ts) (v ∷ vs) (a ∷ acc) (ct ∷ cts) n (ea, es) ((p, q, ev), cs) =
      let (r, done, ers) = add_weighted-AllEncrypt w ts vs acc cts (omega arith) es cs in
      (
        add_ct L a (scalar_mul_ct L w p) ∷ r,
        rw (q, done),
        (
          add_ct-Encrypts L laws mpk t (v * w) a (scalar_mul_ct L w p) ea
              (scalar_mul_ct-Encrypts L laws mpk w v p ev),
          ers,
        ),
      )

  add_ballot-AllEncrypt :
      (scale : ℕ) (ts vs : List ℕ) (acc : List (Elgamal.Ciphertext L)) (ab : AdmittedBallot)
      → 1 ≤ scale
      → length vs ≡ length ts
      → AllEncrypt L mpk ts acc
      → Carries L mpk vs ab.envelope.ciphertexts
      → (r : List (Elgamal.Ciphertext L)) × (add_ballot L scale acc ab ≡ ok r)
        × AllEncrypt L mpk (add_votes (half_up ab.weight scale) ts vs) r
  unfolding add_ballot
  add_ballot-AllEncrypt scale ts vs acc ab pos n e c =
      let w = half_up ab.weight scale in
      elim (Bool-cases (w == 0)) [
        | inl none_left ↦ (
          acc,
          rw (scaled_weight-ok ab.weight scale pos, none_left),
          rw (← sym ((==_iff w 0).0 none_left), add_votes_zero ts vs) e,
        )
        | inr some_left ↦
            rw (scaled_weight-ok ab.weight scale pos, some_left)
              (add_weighted-AllEncrypt w ts vs acc ab.envelope.ciphertexts n e c)
      ]

  aggregate_from-AllEncrypt :
      (scale : ℕ) (ts : List ℕ) (acc : List (Elgamal.Ciphertext L))
      (cast : List (AdmittedBallot × List ℕ))
      → 1 ≤ scale
      → AllEncrypt L mpk ts acc
      → AllCarry L mpk (length ts) cast
      → (r : List (Elgamal.Ciphertext L)) × (aggregate_from L scale acc (ballots_of cast) ≡ ok r)
        × AllEncrypt L mpk (tally scale ts cast) r
  unfolding aggregate_from tally ballots_of
  aggregate_from-AllEncrypt scale ts acc [] pos e c = (acc, refl, e)
  aggregate_from-AllEncrypt scale ts acc ((ab, vs) ∷ cast) pos e (n, c, cs) =
      let (next, one, en) = add_ballot-AllEncrypt scale ts vs acc ab pos n e c in
      let ts' = add_votes (half_up ab.weight scale) ts vs in
      let (r, rest, er) = aggregate_from-AllEncrypt scale ts' next cast pos en (
        subst (λ m. AllCarry L mpk m cast) (sym (length-add_votes (half_up ab.weight scale) ts vs))
          cs) in
      (r, rw (one, rest), er)

  zeros-AllEncrypt :
      (n : ℕ) → AllEncrypt L mpk (replicate n 0) (replicate n (L.identity, L.identity))
  zeros-AllEncrypt zero = tt
  zeros-AllEncrypt (suc n) = (identity-Encrypts L laws mpk, zeros-AllEncrypt n)

  length-zeros : (n : ℕ) → length {A = ℕ} (replicate n 0) ≡ n
  length-zeros zero = refl
  length-zeros (suc n) = ap suc (length-zeros n)

  -- If the scale is at least 1 and the ciphertexts of every admitted ballot decode to encryptions of its
  -- votes, one for each candidate, the aggregate is computed without an error, and it encrypts,
  -- candidate by candidate, the sum of the votes times the weights in units of the scale, half a unit
  -- rounded up.
  pub aggregate_points-AllEncrypt :
      (num_candidates scale : ℕ) (cast : List (AdmittedBallot × List ℕ))
      → 1 ≤ scale
      → AllCarry L mpk num_candidates cast
      → (r : List (Elgamal.Ciphertext L)) × (aggregate_points L
            (ballots_of cast)
            num_candidates
            scale
          ≡ ok r)
        × AllEncrypt L mpk (tally scale (replicate num_candidates 0) cast) r
  unfolding aggregate_points
  aggregate_points-AllEncrypt n scale cast pos c =
      aggregate_from-AllEncrypt scale (replicate n 0) (replicate n (L.identity, L.identity)) cast
        pos (zeros-AllEncrypt n) (subst (λ m. AllCarry L mpk m cast) (sym (length-zeros n)) c)
