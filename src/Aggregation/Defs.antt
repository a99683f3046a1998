-- ===== src/Aggregation/Defs.antt =====
-- core/aggregation.py: `scaled_weight`, `bsgs_bound` and `aggregate_points`.
use generalised_elgamal_voti.Shared.{
  ℕ, ◌+◌, ◌*◌, ◌/◌, List, [], ◌∷◌, replicate, ◌==◌, if◌then◌else◌, ok, err, index_error,
  zero_division_error, Fallible, ◌>>=◌,
}
use generalised_elgamal_voti.Points.{PointLibrary, g2_from_compressed}
use generalised_elgamal_voti.Elgamal.{add_ct, scalar_mul_ct}
use generalised_elgamal_voti.Elgamal
use generalised_elgamal_voti.Config.{ElectionConfig}
use generalised_elgamal_voti.Envelopes.{Ciphertext}
use generalised_elgamal_voti.Admission.{AdmittedBallot}

unfoldable pub scaled_weight : (weight scale : ℕ) → Fallible ℕ
scaled_weight weight scale =
    if scale == 0 then err zero_division_error else ok ((weight + scale / 2) / scale)

unfoldable pub bsgs_bound : ElectionConfig → (total_scaled_weight : ℕ) → ℕ
bsgs_bound config total_scaled_weight = config.budget * total_scaled_weight

module _ (L : PointLibrary) where
  -- `ct_pts`
  unfoldable pub decode_ciphertext : Ciphertext → Fallible (Elgamal.Ciphertext L)
  decode_ciphertext ct = do
    c1 ← g2_from_compressed L ct.c1
    c2 ← g2_from_compressed L ct.c2
    ok (c1, c2)

  -- The inner loop, over the candidates of the accumulator; a missing ciphertext is an IndexError.
  unfoldable pub add_weighted :
      (w : ℕ)
      → List (Elgamal.Ciphertext L)
      → List Ciphertext
      → Fallible (List (Elgamal.Ciphertext L))
  unfolding decode_ciphertext
  add_weighted w [] cts = ok []
  add_weighted w (a ∷ acc) [] = err index_error
  add_weighted w (a ∷ acc) (ct ∷ cts) = do
    ct_pts ← decode_ciphertext ct
    rest ← add_weighted w acc cts
    ok (add_ct L a (scalar_mul_ct L w ct_pts) ∷ rest)

  unfoldable pub add_ballot :
      (scale : ℕ)
      → List (Elgamal.Ciphertext L)
      → AdmittedBallot
      → Fallible (List (Elgamal.Ciphertext L))
  unfolding scaled_weight add_weighted
  add_ballot scale acc ab = do
    w ← scaled_weight ab.weight scale
    if w == 0 then ok acc else add_weighted w acc ab.envelope.ciphertexts

  unfoldable pub aggregate_from :
      (scale : ℕ)
      → List (Elgamal.Ciphertext L)
      → List AdmittedBallot
      → Fallible (List (Elgamal.Ciphertext L))
  unfolding add_ballot
  aggregate_from scale acc [] = ok acc
  aggregate_from scale acc (ab ∷ admitted) = do
    next ← add_ballot scale acc ab
    aggregate_from scale next admitted

  unfoldable pub aggregate_points :
      List AdmittedBallot → (num_candidates scale : ℕ) → Fallible (List (Elgamal.Ciphertext L))
  unfolding aggregate_from
  aggregate_points admitted num_candidates scale =
      aggregate_from scale (replicate num_candidates (L.identity, L.identity)) admitted
