-- ===== src/Ballot/Codec.antt =====
-- crypto/ballot.py: the encoding of validity proofs. The reader's offset `o` is the list of the bytes
-- from there on, which is empty when the offset is at the end or past it.
use generalised_elgamal_voti.Shared.{
  ℕ, zero, suc, ◌+◌, Bool, false, not, ◌||◌, List, [], ◌∷◌, ◌++◌, length, take, drop, ltb, ◌==◌, ok,
  err, Fallible, value_error, index_error, ◌>>=◌, ◌>>◌, raise_if,
}
use generalised_elgamal_voti.Shared.Bytes.{Bytes, from_bytes}
use generalised_elgamal_voti.Params.{u16be, scalar_to_bytes, scalar_from_bytes}
use generalised_elgamal_voti.Points.{PointLibrary, g2_to_compressed, g2_from_compressed}
use generalised_elgamal_voti.Proofs.{OrBranch}

abbrev pub bvp_version : ℕ
bvp_version = 1

abbrev pub variant_a_byte : ℕ
variant_a_byte = 65

abbrev pub budget_exact_tag : ℕ
budget_exact_tag = 0

-- `for _ in range(n_outer): out += branch_count.to_bytes(2, "big")`
unfoldable pub encode_counts : (n_outer branch_count : ℕ) → Fallible Bytes
encode_counts zero branch_count = ok []
encode_counts (suc n) branch_count = do
  count ← u16be branch_count
  counts ← encode_counts n branch_count
  ok (count ++ counts)

-- `buf[o]; o += 1`
unfoldable pub read_byte : Bytes → Fallible (ℕ × Bytes)
read_byte [] = err index_error
read_byte (b ∷ bs) = ok (b, bs)

-- `scalar_from_bytes(buf[o:o + 32], ...); o += 32`
unfoldable pub read_scalar : Bytes → Fallible (ℕ × Bytes)
read_scalar buf = do s ← scalar_from_bytes (take 32 buf); ok (s, drop 32 buf)

-- The loop over the counts, each of which has to be the expected one.
unfoldable pub read_counts : (n_outer expected : ℕ) → Bytes → Fallible Bytes
read_counts zero expected buf = ok buf
read_counts (suc n) expected buf = do
  raise_if (not (from_bytes (take 2 buf) == expected)) value_error
  read_counts n expected (drop 2 buf)

-- `any(len(p) != branch_count for p in range_proofs)`
unfoldable pub counts_diverge {ℓ} : {A : Type ℓ} → (branch_count : ℕ) → List (List A) → Bool
counts_diverge branch_count [] = false
counts_diverge branch_count (p ∷ ps) =
    not (length p == branch_count) || counts_diverge branch_count ps

unfoldable pub first_length {ℓ} : {A : Type ℓ} → List (List A) → ℕ
first_length [] = 0
first_length (p ∷ ps) = length p

module _ (L : PointLibrary) where
  unfoldable pub encode_branch : OrBranch L → Fallible Bytes
  encode_branch br = do
    a1 ← g2_to_compressed L br.a1
    a2 ← g2_to_compressed L br.a2
    ok (a1 ++ (a2 ++ (scalar_to_bytes br.e ++ scalar_to_bytes br.z)))

  unfoldable pub encode_branches : List (OrBranch L) → Fallible Bytes
  unfolding encode_branch
  encode_branches [] = ok []
  encode_branches (br ∷ branches) = do
    b ← encode_branch br
    bs ← encode_branches branches
    ok (b ++ bs)

  unfoldable pub encode_range_proofs : List (List (OrBranch L)) → Fallible Bytes
  unfolding encode_branches
  encode_range_proofs [] = ok []
  encode_range_proofs (proof ∷ proofs) = do
    b ← encode_branches proof
    bs ← encode_range_proofs proofs
    ok (b ++ bs)

  unfoldable pub encode_ballot_validity_proof :
      (range_proofs : List (List (OrBranch L))) (e_b z_b : ℕ) → Fallible Bytes
  unfolding encode_counts encode_range_proofs counts_diverge first_length
  encode_ballot_validity_proof range_proofs e_b z_b = do
    raise_if (length range_proofs == 0) value_error
    let branch_count = first_length range_proofs
    raise_if (counts_diverge branch_count range_proofs) value_error
    n_outer ← u16be (length range_proofs)
    counts ← encode_counts (length range_proofs) branch_count
    body ← encode_range_proofs range_proofs
    ok (
        bvp_version
        ∷ variant_a_byte
        ∷ (n_outer
            ++ (counts
                ++ (body ++ (budget_exact_tag ∷ (scalar_to_bytes e_b ++ scalar_to_bytes z_b))))))

  -- `g2_from_compressed(buf[o:o + 96]); o += 96`
  unfoldable pub read_point : Bytes → Fallible (L.Point × Bytes)
  read_point buf = do P ← g2_from_compressed L (take 96 buf); ok (P, drop 96 buf)

  unfoldable pub read_branch : Bytes → Fallible (OrBranch L × Bytes)
  unfolding read_point read_scalar
  read_branch buf = do
    (a1, buf1) ← read_point buf
    (a2, buf2) ← read_point buf1
    (e, buf3) ← read_scalar buf2
    (z, buf4) ← read_scalar buf3
    ok (record { a1 = a1; a2 = a2; e = e; z = z }, buf4)

  unfoldable pub read_branches : (branch_count : ℕ) → Bytes → Fallible (List (OrBranch L) × Bytes)
  unfolding read_branch
  read_branches zero buf = ok ([], buf)
  read_branches (suc n) buf = do
    (br, buf1) ← read_branch buf
    (branches, buf2) ← read_branches n buf1
    ok (br ∷ branches, buf2)

  -- The counts that were read are all the expected one.
  unfoldable pub read_range_proofs :
      (n_outer branch_count : ℕ) → Bytes → Fallible (List (List (OrBranch L)) × Bytes)
  unfolding read_branches
  read_range_proofs zero branch_count buf = ok ([], buf)
  read_range_proofs (suc n) branch_count buf = do
    (branches, buf1) ← read_branches branch_count buf
    (proofs, buf2) ← read_range_proofs n branch_count buf1
    ok (branches ∷ proofs, buf2)

  unfoldable pub decode_ballot_validity_proof :
      (buf : Bytes) (num_candidates budget : ℕ) → Fallible (List (List (OrBranch L)) × ℕ × ℕ)
  unfolding read_byte read_counts read_range_proofs read_scalar
  decode_ballot_validity_proof buf num_candidates budget = do
    raise_if (ltb (length buf) 4) value_error
    (version, buf1) ← read_byte buf
    raise_if (not (version == bvp_version)) value_error
    (variant, buf2) ← read_byte buf1
    raise_if (not (variant == variant_a_byte)) value_error
    let n_outer = from_bytes (take 2 buf2)
    raise_if (not (n_outer == num_candidates)) value_error
    buf3 ← read_counts n_outer (budget + 1) (drop 2 buf2)
    (range_proofs, buf4) ← read_range_proofs n_outer (budget + 1) buf3
    raise_if (length buf4 == 0) value_error
    (tag, buf5) ← read_byte buf4
    raise_if (not (tag == budget_exact_tag)) value_error
    (e_b, buf6) ← read_scalar buf5
    (z_b, buf7) ← read_scalar buf6
    raise_if (not (length buf7 == 0)) value_error
    ok (range_proofs, e_b, z_b)
