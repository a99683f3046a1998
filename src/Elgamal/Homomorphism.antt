-- ===== src/Elgamal/Homomorphism.antt =====
-- crypto/elgamal.py: what ciphertexts encrypt under sums and weights, and decryption.
use generalised_elgamal_voti.Shared.{
  ℕ, ◌+◌, ◌*◌, ◌≡◌, refl, sym, ap, ap₂, ◌∙◌, arith, List, [], ◌∷◌,
}
use generalised_elgamal_voti.Points.{PointLibrary, IsPrimeOrderGroup, mul, add, neg}
use generalised_elgamal_voti.Points.Laws.{
  mul-add, mul-mul, add-mul, mul-zero, add_comm, add_interchange, add-identity, add-neg_cancel,
}
use generalised_elgamal_voti.Elgamal.Defs.{
  Ciphertext, encrypt, add_ct, scalar_mul_ct, sum_from, sum_cts,
}

-- `ct` encrypts `m` under `mpk`, with some randomness.
pub record Encrypts (L : PointLibrary) (mpk : L.Point) (m : ℕ) (ct : Ciphertext L) : Type 0 where
  pub randomness : ℕ
  pub first : ct.0 ≡ mul L L.generator randomness
  pub second : ct.1 ≡ add L (mul L mpk randomness) (mul L L.generator m)

abbrev pub total : List ℕ → ℕ
total [] = 0
total (m ∷ ms) = m + total ms

module _ (L : PointLibrary) (mpk : L.Point) where
  abbrev pub AllEncrypt : List ℕ → List (Ciphertext L) → Type 0
  AllEncrypt [] [] = Unit
  AllEncrypt (m ∷ ms) (ct ∷ cts) = Encrypts L mpk m ct × AllEncrypt ms cts
  AllEncrypt [] (ct ∷ cts) = ⊥
  AllEncrypt (m ∷ ms) [] = ⊥

module _ (L : PointLibrary) (laws : IsPrimeOrderGroup L) (mpk : L.Point) where
  pub encrypt-Encrypts :
      (m r : ℕ) → Encrypts L mpk m (let (c1, c2, _) = encrypt L mpk m r in (c1, c2))
  unfolding encrypt
  encrypt-Encrypts m r = record { randomness = r; first = refl; second = refl }

  -- The sum of two ciphertexts encrypts the sum.
  pub add_ct-Encrypts :
      (m n : ℕ) (a b : Ciphertext L)
      → Encrypts L mpk m a
      → Encrypts L mpk n b
      → Encrypts L mpk (m + n) (add_ct L a b)
  unfolding add_ct
  add_ct-Encrypts m n a b ea eb = record {
    randomness = ea.randomness + eb.randomness;
    first = ap₂ (add L) ea.first eb.first ∙ sym (mul-add L laws L.generator _ _);
    second =
        ap₂ (add L) ea.second eb.second
        ∙ add_interchange L laws _ _ _ _
        ∙ ap₂ (add L) (sym (mul-add L laws mpk _ _)) (sym (mul-add L laws L.generator m n));
  }

  -- A ciphertext times a weight encrypts the product.
  pub scalar_mul_ct-Encrypts :
      (k m : ℕ) (a : Ciphertext L)
      → Encrypts L mpk m a
      → Encrypts L mpk (m * k) (scalar_mul_ct L k a)
  unfolding scalar_mul_ct
  scalar_mul_ct-Encrypts k m a e = record {
    randomness = e.randomness * k;
    first = ap (λ P. mul L P k) e.first ∙ mul-mul L laws L.generator _ k;
    second =
        ap (λ P. mul L P k) e.second
        ∙ add-mul L laws _ _ k
        ∙ ap₂ (add L) (mul-mul L laws mpk _ k) (mul-mul L laws L.generator m k);
  }

  pub identity-Encrypts : Encrypts L mpk 0 (L.identity, L.identity)
  identity-Encrypts = record {
    randomness = 0;
    first = sym (mul-zero L laws L.generator);
    second = sym (
        ap₂ (add L) (mul-zero L laws mpk) (mul-zero L laws L.generator)
        ∙ add-identity L laws L.identity);
  }

  sum_from-Encrypts :
      (n : ℕ) (acc : Ciphertext L) (ms : List ℕ) (cts : List (Ciphertext L))
      → Encrypts L mpk n acc
      → AllEncrypt L mpk ms cts
      → Encrypts L mpk (n + total ms) (sum_from L acc cts)
  unfolding sum_from
  sum_from-Encrypts n acc [] [] e h = let p : n + 0 ≡ n = omega arith in rw p e
  sum_from-Encrypts n acc [] (ct ∷ cts) e h = absurd h
  sum_from-Encrypts n acc (m ∷ ms) [] e h = absurd h
  sum_from-Encrypts n acc (m ∷ ms) (ct ∷ cts) e h =
      let p : n + (m + total ms) ≡ n + m + total ms = omega arith in
      rw p (
        sum_from-Encrypts (n + m) (add L acc.0 ct.0, add L acc.1 ct.1) ms cts
          (unfold add_ct in add_ct-Encrypts n m acc ct e h.0) h.1)

  -- The homomorphic sum of ciphertexts that encrypt numbers encrypts their sum.
  pub sum_cts-Encrypts :
      (ms : List ℕ) (cts : List (Ciphertext L))
      → AllEncrypt L mpk ms cts
      → Encrypts L mpk (total ms) (sum_cts L cts)
  unfolding sum_cts
  sum_cts-Encrypts ms cts h =
      let p : total ms ≡ 0 + total ms = omega arith in
      rw p (sum_from-Encrypts 0 (L.identity, L.identity) ms cts identity-Encrypts h)

-- Under the key of `msk`, taking `msk` times the first component away leaves the plaintext.
pub Encrypts-decrypt :
    (L : PointLibrary) (laws : IsPrimeOrderGroup L) (msk m : ℕ) (ct : Ciphertext L)
    → Encrypts L (mul L L.generator msk) m ct
    → add L ct.1 (neg L (mul L ct.0 msk)) ≡ mul L L.generator m
Encrypts-decrypt L laws msk m ct e =
    ap₂ (λ P Q. add L P (neg L Q))
      (e.second ∙ ap (λ P. add L P (mul L L.generator m)) masks ∙ add_comm L laws _ _)
      (ap (λ P. mul L P msk) e.first)
    ∙ add-neg_cancel L laws _ _
  where
    masks : mul L (mul L L.generator msk) e.randomness ≡ mul L (mul L L.generator e.randomness) msk
    masks =
        mul-mul L laws L.generator msk e.randomness
        ∙ ap (mul L L.generator) (omega arith)
        ∙ sym (mul-mul L laws L.generator e.randomness msk)
