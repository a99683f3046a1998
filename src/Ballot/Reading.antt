-- ===== src/Ballot/Reading.antt =====
-- crypto/ballot.py: reading back what was written, whatever follows it.
use native.Mathlib.Nat.{mod-eq_of_lt}
use generalised_elgamal_voti.Shared.{
  ℕ, zero, suc, ◌*◌, ◌%◌, ◌<◌, ◌≡◌, refl, ◌∙◌, arith, List, [], ◌∷◌, ◌++◌, length, length-append,
  append_assoc, take-append, drop-append, All, ==_iff, ok,
}
use generalised_elgamal_voti.Shared.Bytes.{
  Bytes, big_endian, length-big_endian, from_bytes-big_endian,
}
use generalised_elgamal_voti.Params.{
  curve_order, u16be, to_bytes, scalar_to_bytes, scalar_from_bytes-to_bytes, length-scalar_to_bytes,
}
use generalised_elgamal_voti.Points.{PointLibrary, HasCodec, g2_to_compressed, g2_from_compressed}
use generalised_elgamal_voti.Points.Codec.{to_compressed-ok, from_compressed-bytes}
use generalised_elgamal_voti.Proofs.{OrBranch}
use generalised_elgamal_voti.Proofs.Or.{IsReduced}
use generalised_elgamal_voti.Ballot.Codec.{
  read_scalar, read_counts, read_point, read_branch, read_branches, read_range_proofs,
  encode_counts, encode_branch, encode_branches, encode_range_proofs,
}

pub u16be-ok : (n : ℕ) → n < 65536 → u16be n ≡ ok (big_endian 2 n)
unfolding u16be to_bytes
u16be-ok n h = ground arith

read_scalar-bytes :
    (s : ℕ) (rest : Bytes) → read_scalar (scalar_to_bytes s ++ rest) ≡ ok (s % curve_order, rest)
unfolding read_scalar
read_scalar-bytes s rest = rw (
  take-append (scalar_to_bytes s) rest 32 (length-scalar_to_bytes s),
  drop-append (scalar_to_bytes s) rest 32 (length-scalar_to_bytes s),
  scalar_from_bytes-to_bytes s,
)

-- A scalar below the order is read as it is.
pub read_scalar-reduced :
    (s : ℕ) (rest : Bytes)
    → s < curve_order
    → read_scalar (scalar_to_bytes s ++ rest) ≡ ok (s, rest)
read_scalar-reduced s rest h = read_scalar-bytes s rest ∙ rw (mod-eq_of_lt h)

pub counts_bytes : (n_outer branch_count : ℕ) → Bytes
counts_bytes zero branch_count = []
counts_bytes (suc n) branch_count = big_endian 2 branch_count ++ counts_bytes n branch_count

pub encode_counts-ok :
    (n branch_count : ℕ)
    → branch_count < 65536
    → encode_counts n branch_count ≡ ok (counts_bytes n branch_count)
unfolding encode_counts counts_bytes
encode_counts-ok zero branch_count h = refl
encode_counts-ok (suc n) branch_count h =
    rw (u16be-ok branch_count h, encode_counts-ok n branch_count h)

pub length-counts_bytes : (n branch_count : ℕ) → length (counts_bytes n branch_count) ≡ 2 * n
unfolding counts_bytes
length-counts_bytes zero branch_count = refl
length-counts_bytes (suc n) branch_count = omega (
  arith,
  length-append (big_endian 2 branch_count) (counts_bytes n branch_count),
  length-big_endian 2 branch_count,
  length-counts_bytes n branch_count,
)

pub read_counts-bytes :
    (n branch_count : ℕ) (rest : Bytes)
    → branch_count < 65536
    → read_counts n branch_count (counts_bytes n branch_count ++ rest) ≡ ok rest
unfolding read_counts counts_bytes
read_counts-bytes zero branch_count rest h = refl
read_counts-bytes (suc n) branch_count rest h =
    let size = length-big_endian 2 branch_count in
    rw
      (
        append_assoc (big_endian 2 branch_count) (counts_bytes n branch_count) rest,
        take-append (big_endian 2 branch_count) (counts_bytes n branch_count ++ rest) 2 size,
        drop-append (big_endian 2 branch_count) (counts_bytes n branch_count ++ rest) 2 size,
        from_bytes-big_endian 2 branch_count (omega arith),
        (==_iff branch_count branch_count).1 refl,
      )
      (read_counts-bytes n branch_count rest h)

module _ (L : PointLibrary) (codec : HasCodec L 96) where
  read_point-bytes :
      (P : L.Point) (rest : Bytes) → read_point L (L.to_compressed_bytes P ++ rest) ≡ ok (P, rest)
  unfolding read_point g2_from_compressed
  read_point-bytes P rest = rw (
    take-append (L.to_compressed_bytes P) rest 96 (codec.encoded_length P),
    drop-append (L.to_compressed_bytes P) rest 96 (codec.encoded_length P),
    from_compressed-bytes L 96 codec P,
  )

  pub branch_bytes : OrBranch L → Bytes
  branch_bytes br =
      L.to_compressed_bytes br.a1
      ++ (L.to_compressed_bytes br.a2 ++ (scalar_to_bytes br.e ++ scalar_to_bytes br.z))

  encode_branch-ok : (br : OrBranch L) → encode_branch L br ≡ ok (branch_bytes br)
  unfolding encode_branch g2_to_compressed branch_bytes
  encode_branch-ok br = rw (to_compressed-ok L 96 codec br.a1, to_compressed-ok L 96 codec br.a2)

  length-branch_bytes : (br : OrBranch L) → length (branch_bytes br) ≡ 256
  unfolding branch_bytes
  length-branch_bytes br =
      let scalars = scalar_to_bytes br.e ++ scalar_to_bytes br.z in
      omega (
        arith,
        length-append (L.to_compressed_bytes br.a1) (L.to_compressed_bytes br.a2 ++ scalars),
        length-append (L.to_compressed_bytes br.a2) scalars,
        length-append (scalar_to_bytes br.e) (scalar_to_bytes br.z),
        codec.encoded_length br.a1,
        codec.encoded_length br.a2,
        length-scalar_to_bytes br.e,
        length-scalar_to_bytes br.z,
      )

  read_branch-bytes :
      (br : OrBranch L) (rest : Bytes)
      → IsReduced L br
      → read_branch L (branch_bytes br ++ rest) ≡ ok (br, rest)
  unfolding read_branch branch_bytes
  read_branch-bytes br rest (e_small, z_small) =
      let c1 = L.to_compressed_bytes br.a1 in
      let c2 = L.to_compressed_bytes br.a2 in
      let e = scalar_to_bytes br.e in
      let z = scalar_to_bytes br.z in
      rw (
        append_assoc c1 (c2 ++ (e ++ z)) rest,
        append_assoc c2 (e ++ z) rest,
        append_assoc e z rest,
        read_point-bytes br.a1 (c2 ++ (e ++ (z ++ rest))),
        read_point-bytes br.a2 (e ++ (z ++ rest)),
        read_scalar-reduced br.e (z ++ rest) e_small,
        read_scalar-reduced br.z rest z_small,
      )

  pub branches_bytes : List (OrBranch L) → Bytes
  unfolding branch_bytes
  branches_bytes [] = []
  branches_bytes (br ∷ branches) = branch_bytes br ++ branches_bytes branches

  encode_branches-ok :
      (branches : List (OrBranch L)) → encode_branches L branches ≡ ok (branches_bytes branches)
  unfolding encode_branches branches_bytes
  encode_branches-ok [] = refl
  encode_branches-ok (br ∷ branches) = rw (encode_branch-ok br, encode_branches-ok branches)

  length-branches_bytes :
      (branches : List (OrBranch L)) → length (branches_bytes branches) ≡ length branches * 256
  unfolding branches_bytes
  length-branches_bytes [] = refl
  length-branches_bytes (br ∷ branches) = omega (
    arith,
    length-append (branch_bytes br) (branches_bytes branches),
    length-branch_bytes br,
    length-branches_bytes branches,
  )

  read_branches-bytes :
      (branches : List (OrBranch L)) (n : ℕ) (rest : Bytes)
      → length branches ≡ n
      → All (IsReduced L) branches
      → read_branches L n (branches_bytes branches ++ rest) ≡ ok (branches, rest)
  unfolding read_branches branches_bytes
  read_branches-bytes [] zero rest h small = refl
  read_branches-bytes [] (suc n) rest h small = absurd (omega arith)
  read_branches-bytes (br ∷ branches) zero rest h small = absurd (omega arith)
  read_branches-bytes (br ∷ branches) (suc n) rest h (small, smaller) = rw (
    append_assoc (branch_bytes br) (branches_bytes branches) rest,
    read_branch-bytes br (branches_bytes branches ++ rest) small,
    read_branches-bytes branches n rest (omega arith) smaller,
  )

  pub proofs_bytes : List (List (OrBranch L)) → Bytes
  unfolding branches_bytes
  proofs_bytes [] = []
  proofs_bytes (p ∷ ps) = branches_bytes p ++ proofs_bytes ps

  -- Proofs with `n` branches each, whose scalars are reduced.
  abbrev pub AreProofs : (n : ℕ) → List (List (OrBranch L)) → Type 0
  AreProofs n = All (λ p. (length p ≡ n) × All (IsReduced L) p)

  pub encode_range_proofs-ok :
      (ps : List (List (OrBranch L))) → encode_range_proofs L ps ≡ ok (proofs_bytes ps)
  unfolding encode_range_proofs proofs_bytes
  encode_range_proofs-ok [] = refl
  encode_range_proofs-ok (p ∷ ps) = rw (encode_branches-ok p, encode_range_proofs-ok ps)

  pub length-proofs_bytes :
      (n : ℕ) (ps : List (List (OrBranch L)))
      → AreProofs n ps
      → length (proofs_bytes ps) ≡ length ps * (n * 256)
  unfolding proofs_bytes
  length-proofs_bytes n [] h = omega arith
  length-proofs_bytes n (p ∷ ps) ((h, small), hs) = omega (
    arith,
    length-append (branches_bytes p) (proofs_bytes ps),
    length-branches_bytes p,
    length-proofs_bytes n ps hs,
    h,
  )

  pub read_range_proofs-bytes :
      (n : ℕ) (ps : List (List (OrBranch L))) (rest : Bytes)
      → AreProofs n ps
      → read_range_proofs L (length ps) n (proofs_bytes ps ++ rest) ≡ ok (ps, rest)
  unfolding read_range_proofs proofs_bytes
  read_range_proofs-bytes n [] rest h = refl
  read_range_proofs-bytes n (p ∷ ps) rest ((h, small), hs) = rw (
    append_assoc (branches_bytes p) (proofs_bytes ps) rest,
    read_branches-bytes p n (proofs_bytes ps ++ rest) h small,
    read_range_proofs-bytes n ps rest hs,
  )
