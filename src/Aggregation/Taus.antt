-- ===== src/Aggregation/Taus.antt =====
-- core/aggregation.py: what `_derive_taus` finds for each candidate, and with whose shares.
use generalised_elgamal_voti.Shared.{
  ℕ, suc, ◌≤◌, ◌≡◌, subst, map, Bool-cases, inl, inr, refl, sym, ap, ◌∙◌, arith, Bool, true, false,
  List, [], ◌∷◌, length, length-map, ltb, if◌then◌else◌, Option, none, some, ok, err, Fallible,
  ◌>>=◌, take, bind-ok, ok_injective,
}
use generalised_elgamal_voti.Shared.Bytes.{Bytes}
use generalised_elgamal_voti.Points.{PointLibrary, g2_from_compressed}
use generalised_elgamal_voti.Recovery.{combine_shares}
use generalised_elgamal_voti.Config.{ElectionConfig}
use generalised_elgamal_voti.Envelopes.{Ciphertext, DecryptionShareEnvelope, AggregateArtifact}
use generalised_elgamal_voti.Aggregation.Result.{
  valid_shares, first_indices, taus_from, derive_taus,
}

module _ {X : Type 0} where
  nothing_ok : (out : List X) → ◌≡◌ {A = Fallible (Option (List X))} (ok none) (ok (some out)) → ⊥
  nothing_ok out h = cc

  nil_ok :
      (out : List X)
      → ◌≡◌ {A = Fallible (Option (List X))} (ok (some [])) (ok (some out))
      → [] ≡ out
  nil_ok out h = cc

  enough_ok :
      (few : Bool) (r : Fallible (Option (List X))) (out : List X)
      → (if few then ok none else r) ≡ ok (some out)
      → r ≡ ok (some out)
  enough_ok true r out h = absurd cc
  enough_ok false r out h = h

  cons_ok :
      (rest : Fallible (Option (List X))) (x : X) (out : List X)
      → (rest >>= λ r. ok (elim r [ none ↦ none | some xs ↦ some (x ∷ xs) ])) ≡ ok (some out)
      → (xs : List X) × (rest ≡ ok (some xs)) × (x ∷ xs ≡ out)
  cons_ok (err e) x out h = absurd cc
  cons_ok (ok none) x out h = absurd cc
  cons_ok (ok (some xs)) x out h = (xs, refl, cc)

pub mapped_ok :
    {X Y : Type 0} (o : Option X) (f : X → Y) (y : Y)
    → ◌≡◌ {A = Option Y} (elim o [ none ↦ none | some x ↦ some (f x) ]) (some y)
    → (x : X) × (o ≡ some x) × (f x ≡ y)
mapped_ok none f y h = absurd cc
mapped_ok (some x) f y h = (x, refl, cc)

module _ (L : PointLibrary) where
  module _ (keccak : Bytes → Bytes) (config : ElectionConfig) (committee_pks : List Bytes)
      (quorum : ℕ) where
    length-taus_from :
        (j : ℕ) (cts : List Ciphertext) (shares : List DecryptionShareEnvelope)
        (taus : List (L.Point × List ℕ))
        → taus_from L keccak config committee_pks quorum j cts shares ≡ ok (some taus)
        → length taus ≡ length cts
    unfolding taus_from
    length-taus_from j [] shares taus h = ap length (sym (nil_ok taus h))
    length-taus_from j (ct ∷ cts) shares taus h =
        let (c1, _, h1) = bind-ok (g2_from_compressed L ct.c1) _ (some taus) h in
        let (c2, _, h2) = bind-ok (g2_from_compressed L ct.c2) _ (some taus) h1 in
        let (valid, _, h3) =
          bind-ok (valid_shares L keccak config committee_pks quorum j c1 c2 shares) _ (some taus)
            h2 in
        let h4 = enough_ok (ltb (length valid) quorum) _ taus h3 in
        let (sigma, _, h5) = bind-ok (combine_shares L (take quorum valid)) _ (some taus) h4 in
        let (rest, h6, e) =
          cons_ok (taus_from L keccak config committee_pks quorum (suc j) cts shares) _ taus h5 in
        sym (ap length e) ∙ ap suc (length-taus_from (suc j) cts shares rest h6)

    pub length-derive_taus :
        (aggregate : AggregateArtifact) (shares : List DecryptionShareEnvelope)
        (found : List L.Point × List ℕ)
        → derive_taus L keccak config committee_pks quorum aggregate shares ≡ ok (some found)
        → length found.0 ≡ length aggregate.aggregates
    unfolding derive_taus
    length-derive_taus aggregate shares found h =
        let (o, t, h1) =
          bind-ok (taus_from L keccak config committee_pks quorum 0 aggregate.aggregates shares) _
            (some found) h in
        let (taus, e, f) = mapped_ok o _ found (ok_injective _ (some found) h1) in
        sym (ap (λ (x : List L.Point × List ℕ). length x.0) f)
        ∙ length-map taus (λ x. x.0)
        ∙ length-taus_from 0 aggregate.aggregates shares taus (t ∙ ap ok e)

    -- The keypers of the first candidate: the first `quorum` ones whose shares for it are valid.
    abbrev pub Opens : List Ciphertext → List DecryptionShareEnvelope → (indices : List ℕ) → Type 0
    Opens [] shares indices = indices ≡ []
    Opens (ct ∷ cts) shares indices =
        (c1 : L.Point) × (c2 : L.Point) × (valid : List (ℕ × L.Point)) × (g2_from_compressed L ct.c1
          ≡ ok c1)
        × (g2_from_compressed L ct.c2 ≡ ok c2)
        × (valid_shares L keccak config committee_pks quorum 0 c1 c2 shares ≡ ok valid)
        × (quorum ≤ length valid)
        × (indices ≡ map (λ (s : ℕ × L.Point). s.0) (take quorum valid))

    taus_from-Opens :
        (cts : List Ciphertext) (shares : List DecryptionShareEnvelope)
        (taus : List (L.Point × List ℕ))
        → taus_from L keccak config committee_pks quorum 0 cts shares ≡ ok (some taus)
        → Opens cts shares (first_indices L keccak config committee_pks quorum taus)
    unfolding taus_from first_indices
    taus_from-Opens [] shares taus h =
        ap (first_indices L keccak config committee_pks quorum) (sym (nil_ok taus h))
    taus_from-Opens (ct ∷ cts) shares taus h =
        let (c1, p1, h1) = bind-ok (g2_from_compressed L ct.c1) _ (some taus) h in
        let (c2, p2, h2) = bind-ok (g2_from_compressed L ct.c2) _ (some taus) h1 in
        let (valid, v, h3) =
          bind-ok (valid_shares L keccak config committee_pks quorum 0 c1 c2 shares) _ (some taus)
            h2 in
        let h4 = enough_ok (ltb (length valid) quorum) _ taus h3 in
        let (sigma, _, h5) = bind-ok (combine_shares L (take quorum valid)) _ (some taus) h4 in
        let (rest, h6, e) =
          cons_ok (taus_from L keccak config committee_pks quorum 1 cts shares) _ taus h5 in
        (
          c1,
          c2,
          valid,
          p1,
          p2,
          v,
          enough (length valid) _ taus h3,
          ap (first_indices L keccak config committee_pks quorum) (sym e),
        )
      where
        enough :
            (k : ℕ) (r : Fallible (Option (List (L.Point × List ℕ))))
            (out : List (L.Point × List ℕ))
            → (if ltb k quorum then ok none else r) ≡ ok (some out)
            → quorum ≤ k
        enough k r out g = elim (Bool-cases (ltb k quorum)) [
          | inl few ↦ absurd (nothing_ok out (sym (rw few refl) ∙ g))
          | inr many ↦ ground arith
        ]

    pub derive_taus-Opens :
        (aggregate : AggregateArtifact) (shares : List DecryptionShareEnvelope)
        (found : List L.Point × List ℕ)
        → derive_taus L keccak config committee_pks quorum aggregate shares ≡ ok (some found)
        → Opens aggregate.aggregates shares found.1
    unfolding derive_taus
    derive_taus-Opens aggregate shares found h =
        let (o, t, h1) =
          bind-ok (taus_from L keccak config committee_pks quorum 0 aggregate.aggregates shares) _
            (some found) h in
        let (taus, e, f) = mapped_ok o _ found (ok_injective _ (some found) h1) in
        subst (Opens aggregate.aggregates shares) (ap (λ (x : List L.Point × List ℕ). x.1) f)
          (taus_from-Opens aggregate.aggregates shares taus (t ∙ ap ok e))
