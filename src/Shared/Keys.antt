-- ===== src/Shared/Keys.antt =====
-- Types of dictionary keys: a Boolean test of equality and its meaning.
use Prim.Native.Nat.{ℕ}
use mathlib.Core.Path.{◌≡◌, refl, ap, ap₂}
use mathlib.Core.Logic.{◌↔◌}
use mathlib.Core.Bool.{Bool, true, false, ◌&&◌}
use mathlib.Core.List.{List, [], ◌∷◌}
use generalised_elgamal_voti.Shared.Tests.{◌==◌, ==_iff, &&-true}

pub record KeyType {ℓ} (K : Type ℓ) : Type ℓ where
  pub same : K → K → Bool
  pub same_iff : (j k : K) → (same j k ≡ true) ↔ (j ≡ k)

instance abbrev pub number_key : KeyType ℕ
number_key = record { same = ◌==◌; same_iff = ==_iff }

module _ {ℓ} {A : Type ℓ} ⦃key : KeyType A⦄ where
  abbrev pub same_list : List A → List A → Bool
  same_list [] [] = true
  same_list [] (y ∷ ys) = false
  same_list (x ∷ xs) [] = false
  same_list (x ∷ xs) (y ∷ ys) = key.same x y && same_list xs ys

  pub same_list→≡ : (xs ys : List A) → same_list xs ys ≡ true → xs ≡ ys
  same_list→≡ [] [] h = refl
  same_list→≡ [] (y ∷ ys) h = cc
  same_list→≡ (x ∷ xs) [] h = cc
  same_list→≡ (x ∷ xs) (y ∷ ys) h =
      let (p, r) = &&-true (key.same x y) (same_list xs ys) h in
      ap₂ ◌∷◌ ((key.same_iff x y).0 p) (same_list→≡ xs ys r)

  pub same_list_refl : (xs : List A) → same_list xs xs ≡ true
  same_list_refl [] = refl
  same_list_refl (x ∷ xs) = rw ((key.same_iff x x).1 refl) (same_list_refl xs)

  pub same_list_iff : (xs ys : List A) → (same_list xs ys ≡ true) ↔ (xs ≡ ys)
  same_list_iff xs ys = (same_list→≡ xs ys, λ p. rw p (same_list_refl ys))

module _ {ℓ κ} {A : Type ℓ} {B : Type κ} where
  -- Pairs, and values that are told apart by what a function makes of them.
  abbrev pub pair_key : KeyType A → KeyType B → KeyType (A × B)
  pair_key ka kb = record {
    same = λ p q. ka.same p.0 q.0 && kb.same p.1 q.1;
    same_iff = λ p q. (
      λ h.
          let (l, r) = &&-true (ka.same p.0 q.0) (kb.same p.1 q.1) h in
          ap₂ (λ a b. (a, b)) ((ka.same_iff p.0 q.0).0 l) ((kb.same_iff p.1 q.1).0 r),
      λ e.
          rw ((ka.same_iff p.0 q.0).1 (ap (λ t. t.0) e))
            ((kb.same_iff p.1 q.1).1 (ap (λ t. t.1) e)),
    );
  }

  abbrev pub key_by : KeyType B → (f : A → B) → ((a b : A) → f a ≡ f b → a ≡ b) → KeyType A
  key_by kb f injective = record {
    same = λ a b. kb.same (f a) (f b);
    same_iff = λ a b. (
      λ h. injective a b ((kb.same_iff (f a) (f b)).0 h),
      λ e. (kb.same_iff (f a) (f b)).1 (ap f e),
    );
  }

abbrev pub list_key {ℓ} : {A : Type ℓ} → KeyType A → KeyType (List A)
list_key ka = record { same = same_list ⦃key = ka⦄; same_iff = same_list_iff ⦃key = ka⦄ }

instance abbrev pub bytes_key : KeyType (List ℕ)
bytes_key = record { same = same_list; same_iff = same_list_iff }
