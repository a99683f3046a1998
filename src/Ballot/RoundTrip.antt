-- ===== src/Ballot/RoundTrip.antt =====
-- crypto/ballot.py: decoding an encoded validity proof.
use generalised_elgamal_voti.Shared.{
  ℕ, suc, ◌+◌, ◌*◌, ◌<◌, ◌≤◌, ◌≡◌, refl, sym, arith, false, List, [], ◌∷◌, ◌++◌, length,
  length-append, take-append, drop-append, ltb, ◌==◌, ==_iff, append-nil, ok,
}
use generalised_elgamal_voti.Shared.Bytes.{
  Bytes, big_endian, length-big_endian, from_bytes-big_endian,
}
use generalised_elgamal_voti.Params.{curve_order, scalar_to_bytes, length-scalar_to_bytes}
use generalised_elgamal_voti.Points.{PointLibrary, HasCodec}
use generalised_elgamal_voti.Proofs.{OrBranch}
use generalised_elgamal_voti.Ballot.Codec.{
  read_byte, counts_diverge, first_length, encode_ballot_validity_proof,
  decode_ballot_validity_proof, bvp_version, variant_a_byte, budget_exact_tag,
}
use generalised_elgamal_voti.Ballot.Reading.{
  u16be-ok, read_scalar-reduced, counts_bytes, encode_counts-ok, length-counts_bytes,
  read_counts-bytes, AreProofs, proofs_bytes, encode_range_proofs-ok, length-proofs_bytes,
  read_range_proofs-bytes,
}

some_bytes : (n : ℕ) → (suc n == 0) ≡ false
some_bytes n = ground arith

module _ (L : PointLibrary) (codec : HasCodec L 96) where
  counts_agree :
      (n : ℕ) (ps : List (List (OrBranch L))) → AreProofs L codec n ps → counts_diverge n ps ≡ false
  unfolding counts_diverge
  counts_agree n [] h = refl
  counts_agree n (p ∷ ps) ((h, small), hs) = rw ((==_iff (length p) n).1 h) (counts_agree n ps hs)

  first_length-AreProofs :
      (n : ℕ) (ps : List (List (OrBranch L)))
      → 1 ≤ length ps
      → AreProofs L codec n ps
      → first_length ps ≡ n
  unfolding first_length
  first_length-AreProofs n [] k h = absurd (omega arith)
  first_length-AreProofs n (p ∷ ps) k ((h, small), hs) = h

  tail_bytes : (e_b z_b : ℕ) → Bytes
  tail_bytes e_b z_b = budget_exact_tag ∷ (scalar_to_bytes e_b ++ scalar_to_bytes z_b)

  after_counts : List (List (OrBranch L)) → (e_b z_b : ℕ) → Bytes
  after_counts ps e_b z_b = proofs_bytes L codec ps ++ tail_bytes e_b z_b

  after_outer : (n : ℕ) → List (List (OrBranch L)) → (e_b z_b : ℕ) → Bytes
  after_outer n ps e_b z_b = counts_bytes (length ps) n ++ after_counts ps e_b z_b

  -- The bytes of a proof with `n` branches for every candidate.
  pub wire_bytes : (n : ℕ) → List (List (OrBranch L)) → (e_b z_b : ℕ) → Bytes
  wire_bytes n ps e_b z_b =
      bvp_version ∷ variant_a_byte ∷ (big_endian 2 (length ps) ++ after_outer n ps e_b z_b)

  pub length-wire_bytes :
      (n : ℕ) (ps : List (List (OrBranch L))) (e_b z_b : ℕ)
      → AreProofs L codec n ps
      → length (wire_bytes n ps e_b z_b) ≡ 69 + 2 * length ps + length ps * (n * 256)
  unfolding wire_bytes after_outer after_counts tail_bytes
  length-wire_bytes n ps e_b z_b h =
      let scalars = length-append (scalar_to_bytes e_b) (scalar_to_bytes z_b) in
      omega (
        arith,
        length-append (big_endian 2 (length ps)) (after_outer n ps e_b z_b),
        length-append (counts_bytes (length ps) n) (after_counts ps e_b z_b),
        length-append (proofs_bytes L codec ps) (tail_bytes e_b z_b),
        scalars,
        length-big_endian 2 (length ps),
        length-counts_bytes (length ps) n,
        length-proofs_bytes L codec n ps h,
        length-scalar_to_bytes e_b,
        length-scalar_to_bytes z_b,
      )

  pub encode-wire_bytes :
      (n : ℕ) (ps : List (List (OrBranch L))) (e_b z_b : ℕ)
      → AreProofs L codec n ps
      → 1 ≤ length ps
      → length ps < 65536
      → n < 65536
      → encode_ballot_validity_proof L ps e_b z_b ≡ ok (wire_bytes n ps e_b z_b)
  unfolding encode_ballot_validity_proof wire_bytes after_outer after_counts tail_bytes
  encode-wire_bytes n ps e_b z_b h some_proof few small =
      let nonempty : (length ps == 0) ≡ false = ground arith in
      rw (
        nonempty,
        first_length-AreProofs n ps some_proof h,
        counts_agree n ps h,
        u16be-ok (length ps) few,
        encode_counts-ok (length ps) n small,
        encode_range_proofs-ok L codec ps,
      )

  pub decode-wire_bytes :
      (budget : ℕ) (ps : List (List (OrBranch L))) (e_b z_b : ℕ)
      → AreProofs L codec (budget + 1) ps
      → length ps < 65536
      → budget + 1 < 65536
      → e_b < curve_order
      → z_b < curve_order
      → decode_ballot_validity_proof L (wire_bytes (budget + 1) ps e_b z_b) (length ps) budget
        ≡ ok (ps, e_b, z_b)
  unfolding decode_ballot_validity_proof read_byte wire_bytes after_outer after_counts tail_bytes
  decode-wire_bytes budget ps e_b z_b h few small e_small z_small =
      let outer = big_endian 2 (length ps) in
      let size = length-big_endian 2 (length ps) in
      let rest = after_outer (budget + 1) ps e_b z_b in
      let long : ltb (length (wire_bytes (budget + 1) ps e_b z_b)) 4 ≡ false =
        ground (arith, length-wire_bytes (budget + 1) ps e_b z_b h) in
      rw (
        long,
        take-append outer rest 2 size,
        drop-append outer rest 2 size,
        from_bytes-big_endian 2 (length ps) (omega arith),
        (==_iff (length ps) (length ps)).1 refl,
        read_counts-bytes (length ps) (budget + 1) (after_counts ps e_b z_b) small,
        read_range_proofs-bytes L codec (budget + 1) ps (tail_bytes e_b z_b) h,
        read_scalar-reduced e_b (scalar_to_bytes z_b) e_small,
        sym (append-nil (scalar_to_bytes z_b)),
        read_scalar-reduced z_b [] z_small,
        some_bytes (length (scalar_to_bytes e_b ++ (scalar_to_bytes z_b ++ []))),
      )

  -- Proofs that have one branch for every number of votes from 0 to the budget, and whose scalars are
  -- reduced, are encoded without an error, and decoding for the same numbers gives them back. There are
  -- between 1 and 65535 candidates and the budget is at most 65534.
  pub encode_ballot_validity_proof-decode :
      (budget : ℕ) (ps : List (List (OrBranch L))) (e_b z_b : ℕ)
      → AreProofs L codec (budget + 1) ps
      → 1 ≤ length ps
      → length ps ≤ 65535
      → budget ≤ 65534
      → e_b < curve_order
      → z_b < curve_order
      → (b : Bytes) × (encode_ballot_validity_proof L ps e_b z_b ≡ ok b)
        × (decode_ballot_validity_proof L b (length ps) budget ≡ ok (ps, e_b, z_b))
  encode_ballot_validity_proof-decode budget ps e_b z_b h some_proof few small e_small z_small = (
    wire_bytes (budget + 1) ps e_b z_b,
    encode-wire_bytes (budget + 1) ps e_b z_b h some_proof (omega arith) (omega arith),
    decode-wire_bytes budget ps e_b z_b h (omega arith) (omega arith) e_small z_small,
  )
