-- ===== src/Elgamal/Defs.antt =====
-- crypto/elgamal.py: the functions of the module.
use generalised_elgamal_voti.Shared.{ℕ, List, [], ◌∷◌}
use generalised_elgamal_voti.Points.{PointLibrary, mul, add}

module _ (L : PointLibrary) where
  abbrev pub Ciphertext : Type 0
  Ciphertext = L.Point × L.Point

  -- The third component is the randomness, which the voter's proofs need.
  unfoldable pub encrypt : L.Point → ℕ → ℕ → L.Point × L.Point × ℕ
  encrypt mpk m r = (mul L L.generator r, add L (mul L mpk r) (mul L L.generator m), r)

  unfoldable pub add_ct : Ciphertext → Ciphertext → Ciphertext
  add_ct a b = (add L a.0 b.0, add L a.1 b.1)

  unfoldable pub scalar_mul_ct : ℕ → Ciphertext → Ciphertext
  scalar_mul_ct k a = (mul L a.0 k, mul L a.1 k)

  -- The loop of `sum_cts`.
  unfoldable pub sum_from : Ciphertext → List Ciphertext → Ciphertext
  sum_from acc [] = acc
  sum_from acc (ct ∷ cts) = sum_from (add L acc.0 ct.0, add L acc.1 ct.1) cts

  unfoldable pub sum_cts : List Ciphertext → Ciphertext
  unfolding sum_from
  sum_cts = sum_from (L.identity, L.identity)
