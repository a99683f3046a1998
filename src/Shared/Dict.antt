-- ===== src/Shared/Dict.antt =====
-- A Python dict in insertion order, and its items in the order of numeric keys.
use Prim.Native.Nat.{ℕ}
use mathlib.Core.Path.{◌≡◌, refl, sym, ◌∙◌, subst}
use mathlib.Core.Bool.{true, false}
use mathlib.Core.Logic.{◌⊎◌, inl, inr}
use mathlib.Core.Option.{Option, none, some}
use mathlib.Core.List.{List, [], ◌∷◌}
use generalised_elgamal_voti.Shared.Tests.{leb, if◌then◌else◌, Bool-cases}
use generalised_elgamal_voti.Shared.Lists.{Elem, Distinct}
use generalised_elgamal_voti.Shared.Keys.{KeyType}

abbrev pub Dict {ℓ κ} : Type ℓ → Type κ → Type (ℓ ⊔ κ)
Dict K V = List (K × V)

abbrev pub keys {ℓ κ} : {K : Type ℓ} {V : Type κ} → Dict K V → List K
keys [] = []
keys ((k, _) ∷ d) = k ∷ keys d

module _ {ℓ κ} {K : Type ℓ} {V : Type κ} ⦃key : KeyType K⦄ where
  -- `d.get(k)`
  abbrev pub lookup : K → Dict K V → Option V
  lookup k [] = none
  lookup k ((j, v) ∷ d) = if key.same k j then some v else lookup k d

  -- `d[k] = v`
  abbrev pub insert : K → V → Dict K V → Dict K V
  insert k v [] = (k, v) ∷ []
  insert k v (f ∷ d) = if key.same k f.0 then (k, v) ∷ d else f ∷ insert k v d

  pub lookup-insert_self : (k : K) (v : V) (d : Dict K V) → lookup k (insert k v d) ≡ some v
  lookup-insert_self k v [] = rw ((key.same_iff k k).1 refl)
  lookup-insert_self k v (f ∷ d) = elim (Bool-cases (key.same k f.0)) [
    | inl same ↦ rw (same, (key.same_iff k k).1 refl)
    | inr other ↦ rw (other, other) (lookup-insert_self k v d)
  ]

  pub lookup-insert_ne :
      (k j : K) (v : V) (d : Dict K V) → key.same j k ≡ false → lookup j (insert k v d) ≡ lookup j d
  lookup-insert_ne k j v [] ne = rw ne
  lookup-insert_ne k j v (f ∷ d) ne = elim (Bool-cases (key.same k f.0)) [
    | inl same ↦ rw (same, ne, ← (key.same_iff k f.0).0 same, ne)
    | inr other ↦ rw (other, lookup-insert_ne k j v d ne)
  ]

  pub lookup-here :
      (k : K) (f : K × V) (d : Dict K V) → key.same k f.0 ≡ true → lookup k (f ∷ d) ≡ some f.1
  lookup-here k f d same = rw same

  pub lookup-there :
      (k : K) (f : K × V) (d : Dict K V) → key.same k f.0 ≡ false → lookup k (f ∷ d) ≡ lookup k d
  lookup-there k f d other = rw other

module _ {ℓ} {V : Type ℓ} where
  abbrev pub place : ℕ × V → Dict ℕ V → Dict ℕ V
  place f [] = f ∷ []
  place f (g ∷ d) = if leb f.0 g.0 then f ∷ g ∷ d else g ∷ place f d

  -- `[(k, d[k]) for k in sorted(d)]`
  abbrev pub sorted_items : Dict ℕ V → Dict ℕ V
  sorted_items [] = []
  sorted_items (f ∷ d) = place f (sorted_items d)

module _ {K : Type 0} {V : Type 0} ⦃key : KeyType K⦄ where
  pub keys-insert :
      (j k : K) (v : V) (d : Dict K V) → Elem j (keys (insert k v d)) → (j ≡ k) ⊎ Elem j (keys d)
  keys-insert j k v [] (inl e) = inl e
  keys-insert j k v [] (inr m) = absurd m
  keys-insert j k v (f ∷ d) m = elim (Bool-cases (key.same k f.0)) [
    | inl same ↦
        found same (subst (λ b. Elem j (keys (if b then (k, v) ∷ d else f ∷ insert k v d))) same m)
    | inr other ↦
        passed (keys-insert j k v d)
          (subst (λ b. Elem j (keys (if b then (k, v) ∷ d else f ∷ insert k v d))) other m)
  ]
    where
      found : key.same k f.0 ≡ true → (j ≡ k) ⊎ Elem j (keys d) → (j ≡ k) ⊎ Elem j (keys (f ∷ d))
      found same (inl e) = inl e
      found same (inr n) = inr (inr n)

      passed :
          (Elem j (keys (insert k v d)) → (j ≡ k) ⊎ Elem j (keys d))
          → (j ≡ f.0) ⊎ Elem j (keys (insert k v d))
          → (j ≡ k) ⊎ Elem j (keys (f ∷ d))
      passed rest (inl e) = inr (inl e)
      passed rest (inr n) = elim (rest n) [ inl e ↦ inl e | inr o ↦ inr (inr o) ]

  pub keys-insert-Distinct :
      (k : K) (v : V) (d : Dict K V) → Distinct (keys d) → Distinct (keys (insert k v d))
  keys-insert-Distinct k v [] u = (λ m. m, tt)
  keys-insert-Distinct k v (f ∷ d) (new, u) = elim (Bool-cases (key.same k f.0)) [
    | inl same ↦ rw (same, (key.same_iff k f.0).0 same) (new, u)
    | inr other ↦ rw other (
      λ m. elim (keys-insert f.0 k v d m) [
        | inl e ↦ cc (other, (key.same_iff k f.0).1 (sym e))
        | inr n ↦ new n
      ],
      keys-insert-Distinct k v d u,
    )
  ]

  pub lookup-Elem : (k : K) (v : V) (d : Dict K V) → lookup k d ≡ some v → Elem k (keys d)
  lookup-Elem k v [] h = cc
  lookup-Elem k v (f ∷ d) h = elim (Bool-cases (key.same k f.0)) [
    | inl same ↦ inl ((key.same_iff k f.0).0 same)
    | inr other ↦ inr (lookup-Elem k v d (sym (lookup-there k f d other) ∙ h))
  ]
