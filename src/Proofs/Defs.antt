-- ===== src/Proofs/Defs.antt =====
-- crypto/proofs.py: the proof of equal discrete logarithms, its encoding, and the proofs of decryption
-- shares and of an exact budget that are built on it. The nonce `w` is an argument.
use generalised_elgamal_voti.Shared.{
  ℕ, ◌+◌, ◌-◌, ◌*◌, ◌%◌, Bool, not, [], ◌∷◌, ◌++◌, length, take, drop, ltb, ◌==◌, ok, value_error,
  Fallible, ◌>>=◌, ◌>>◌, raise_if,
}
use generalised_elgamal_voti.Shared.Bytes.{Bytes, encode as text}
use generalised_elgamal_voti.Params.{
  curve_order, dleq_bytes, u16be, scalar_to_bytes, scalar_from_bytes,
}
use generalised_elgamal_voti.Points.{PointLibrary, mul, add}
use generalised_elgamal_voti.Transcript.{
  Transcript, new_transcript, append, append_scalar, append_point, challenge,
}

abbrev pub onchain_decrypt_label : Bytes
onchain_decrypt_label = text "SHUTTER-VOTE-DECRYPT-v1"

-- `(-e) % CURVE_ORDER` for a number `e` that is not negative
unfoldable pub negate : ℕ → ℕ
negate e = (curve_order - e % curve_order) % curve_order

unfoldable pub make_decrypt_transcript :
    (election_id : Bytes) (candidate_index : ℕ) → Fallible Transcript
make_decrypt_transcript election_id candidate_index = do
  raise_if (not (length election_id == 32)) value_error
  raise_if (not (ltb candidate_index 65536)) value_error
  with_id ← append (new_transcript onchain_decrypt_label) (text "electionId") election_id
  candidate ← u16be candidate_index
  append with_id (text "candidate") candidate

unfoldable pub encode_dleq : (e z : ℕ) → Bytes
encode_dleq e z = scalar_to_bytes e ++ scalar_to_bytes z

unfoldable pub decode_dleq : Bytes → Fallible (ℕ × ℕ)
decode_dleq b = do
  raise_if (not (length b == dleq_bytes)) value_error
  e ← scalar_from_bytes (take 32 b)
  z ← scalar_from_bytes (drop 32 b)
  ok (e, z)

-- `point - m * P2`, written with a sum.
unfoldable pub without_plaintext : (L : PointLibrary) → L.Point → (m : ℕ) → L.Point
unfolding negate
without_plaintext L point m = add L point (mul L L.generator (negate (m % curve_order)))

module _ (keccak : Bytes → Bytes) (L : PointLibrary) where
  unfoldable pub bind_statement_dleq :
      Transcript → (base1 point1 base2 point2 : L.Point) → Fallible Transcript
  bind_statement_dleq t base1 point1 base2 point2 = do
    t1 ← append_point L t (text "dleq:base1") base1
    t2 ← append_point L t1 (text "dleq:base2") base2
    t3 ← append_point L t2 (text "dleq:point1") point1
    append_point L t3 (text "dleq:point2") point2

  -- The end that `prove_dleq` and `verify_dleq` share: the statement, the commitments, the challenge.
  unfoldable pub dleq_challenge :
      Transcript → (base1 point1 base2 point2 a1 a2 : L.Point) → Fallible (ℕ × Transcript)
  unfolding bind_statement_dleq
  dleq_challenge t base1 point1 base2 point2 a1 a2 = do
    bound ← bind_statement_dleq t base1 point1 base2 point2
    t1 ← append_point L bound (text "dleq:a1") a1
    t2 ← append_point L t1 (text "dleq:a2") a2
    challenge keccak t2 (text "dleq:e")

  unfoldable pub prove_dleq :
      (base1 point1 base2 point2 : L.Point) (x : ℕ) → Transcript → (w : ℕ) → Fallible (ℕ × ℕ)
  unfolding dleq_challenge
  prove_dleq base1 point1 base2 point2 x t w = do
    (e, _) ← dleq_challenge t base1 point1 base2 point2 (mul L base1 w) (mul L base2 w)
    ok (e, (w + x * e) % curve_order)

  unfoldable pub verify_dleq :
      (base1 point1 base2 point2 : L.Point) (e z : ℕ) → Transcript → Fallible Bool
  unfolding dleq_challenge negate
  verify_dleq base1 point1 base2 point2 e z t = do
    (expected, _) ←
        dleq_challenge t base1 point1 base2 point2 (add L (mul L base1 z) (mul L point1 (negate e)))
          (add L (mul L base2 z) (mul L point2 (negate e)))
    ok (e == expected)

  unfoldable pub bind_decryption_share :
      Transcript → (C1 C2 mpk_k : L.Point) (keyper_index : ℕ) → Fallible Transcript
  bind_decryption_share t C1 C2 mpk_k keyper_index = do
    t1 ← append_point L t (text "dec:C1") C1
    t2 ← append_point L t1 (text "dec:C2") C2
    t3 ← append_point L t2 (text "dec:mpk_k") mpk_k
    index ← u16be keyper_index
    append t3 (text "dec:keyperIndex") index

  unfoldable pub prove_decryption_share :
      Transcript → (C1 C2 mpk_k sigma : L.Point) (msk_k keyper_index w : ℕ) → Fallible (ℕ × ℕ)
  unfolding bind_decryption_share prove_dleq
  prove_decryption_share t C1 C2 mpk_k sigma msk_k keyper_index w = do
    bound ← bind_decryption_share t C1 C2 mpk_k keyper_index
    prove_dleq L.generator mpk_k C1 sigma msk_k bound w

  unfoldable pub verify_decryption_share :
      Transcript → (C1 C2 mpk_k sigma : L.Point) (e z keyper_index : ℕ) → Fallible Bool
  unfolding bind_decryption_share verify_dleq
  verify_decryption_share t C1 C2 mpk_k sigma e z keyper_index = do
    bound ← bind_decryption_share t C1 C2 mpk_k keyper_index
    verify_dleq L.generator mpk_k C1 sigma e z bound

  -- `bind_budget` in the mode `exact`
  unfoldable pub bind_budget_exact : Transcript → (B : ℕ) → Fallible Transcript
  bind_budget_exact t B = do
    t1 ← append t (text "budget:mode") (0 ∷ [])
    append_scalar t1 (text "budget:B") (B % curve_order)

  unfoldable pub prove_budget_exact :
      (c1_sum c2_sum mpk : L.Point) (B r_sum : ℕ) → Transcript → (w : ℕ) → Fallible (ℕ × ℕ)
  unfolding bind_budget_exact without_plaintext prove_dleq
  prove_budget_exact c1_sum c2_sum mpk B r_sum t w = do
    bound ← bind_budget_exact t B
    prove_dleq L.generator c1_sum mpk (without_plaintext L c2_sum B) r_sum bound w

  unfoldable pub verify_budget_exact :
      (c1_sum c2_sum mpk : L.Point) (B e z : ℕ) → Transcript → Fallible Bool
  unfolding bind_budget_exact without_plaintext verify_dleq
  verify_budget_exact c1_sum c2_sum mpk B e z t = do
    bound ← bind_budget_exact t B
    verify_dleq L.generator c1_sum mpk (without_plaintext L c2_sum B) e z bound
