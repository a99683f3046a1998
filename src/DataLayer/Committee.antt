-- ===== src/DataLayer/Committee.antt =====
-- adapters/memory.py: submissions of a committee, and the finalized key among them.
use generalised_elgamal_voti.Shared.{
  ℕ, zero, suc, ◌≤◌, ◌≡◌, ◌≢◌, refl, sym, ap, ◌∙◌, subst, arith, inl, inr, ◌⊎◌, List, [], ◌∷◌,
  length, All, Elem, Distinct, Option, none, some, Bool-cases, ◌==◌, ==_iff, if◌then◌else◌,
}
use generalised_elgamal_voti.Shared.Keys.{KeyType, number_key}
use generalised_elgamal_voti.Shared.Dict.{Dict, lookup, insert}
use generalised_elgamal_voti.Quorum.Groups.{votes}

-- Without the number `k`.
drop_all : (k : ℕ) → List ℕ → List ℕ
drop_all k [] = []
drop_all k (x ∷ xs) = if x == k then drop_all k xs else x ∷ drop_all k xs

Elem-drop_all : (a k : ℕ) (xs : List ℕ) → Elem a (drop_all k xs) → Elem a xs × (a ≢ k)
unfolding drop_all
Elem-drop_all a k [] m = absurd m
Elem-drop_all a k (x ∷ xs) m = elim (Bool-cases (x == k)) [
  | inl same ↦
      let (n, ne) =
        Elem-drop_all a k xs
          (subst (λ b. Elem a (if b then drop_all k xs else x ∷ drop_all k xs)) same m) in
      (inr n, ne)
  | inr other ↦
      kept (subst (λ b. Elem a (if b then drop_all k xs else x ∷ drop_all k xs)) other m)
        (Elem-drop_all a k xs) (λ e. ground (arith, other, e))
]
  where
    kept :
        (a ≡ x) ⊎ Elem a (drop_all k xs)
        → (Elem a (drop_all k xs) → Elem a xs × (a ≢ k))
        → x ≢ k
        → Elem a (x ∷ xs) × (a ≢ k)
    kept (inl e) rest ne = (inl e, λ f. ne (sym e ∙ f))
    kept (inr n) rest ne = let (o, f) = rest n in (inr o, f)

drop_all-Distinct : (k : ℕ) (xs : List ℕ) → Distinct xs → Distinct (drop_all k xs)
unfolding drop_all
drop_all-Distinct k [] d = tt
drop_all-Distinct k (x ∷ xs) (new, d) = elim (Bool-cases (x == k)) [
  | inl same ↦ rw same (drop_all-Distinct k xs d)
  | inr other ↦ rw other ((λ m. new (Elem-drop_all x k xs m).0), drop_all-Distinct k xs d)
]

length-drop_all_absent : (k : ℕ) (xs : List ℕ) → ¬ Elem k xs → length (drop_all k xs) ≡ length xs
unfolding drop_all
length-drop_all_absent k [] h = refl
length-drop_all_absent k (x ∷ xs) h = elim (Bool-cases (x == k)) [
  | inl same ↦ absurd (h (inl (sym ((==_iff x k).0 same))))
  | inr other ↦ rw other (ap suc (length-drop_all_absent k xs (λ m. h (inr m))))
]

length-drop_all : (k : ℕ) (xs : List ℕ) → Distinct xs → length xs ≤ suc (length (drop_all k xs))
unfolding drop_all
length-drop_all k [] d = omega arith
length-drop_all k (x ∷ xs) (new, d) = elim (Bool-cases (x == k)) [
  | inl same ↦
      let absent : ¬ Elem k xs = subst (λ t. ¬ Elem t xs) ((==_iff x k).0 same) new in
      rw same (omega (arith, length-drop_all_absent k xs absent))
  | inr other ↦ rw other (omega (arith, length-drop_all k xs d))
]

-- Distinct numbers from 1 to `n` are at most `n`.
abbrev pub InCommittee : (n : ℕ) → List ℕ → Type 0
InCommittee n = All (λ i. (1 ≤ i) × (i ≤ n))

drop_all-InCommittee :
    (n : ℕ) (xs : List ℕ) → InCommittee (suc n) xs → InCommittee n (drop_all (suc n) xs)
unfolding drop_all
drop_all-InCommittee n [] h = tt
drop_all-InCommittee n (x ∷ xs) ((low, high), h) = elim (Bool-cases (x == suc n)) [
  | inl same ↦ rw same (drop_all-InCommittee n xs h)
  | inr other ↦ rw other ((low, ground (arith, other)), drop_all-InCommittee n xs h)
]

pub length-InCommittee : (n : ℕ) (xs : List ℕ) → Distinct xs → InCommittee n xs → length xs ≤ n
length-InCommittee zero [] d h = omega arith
length-InCommittee zero (x ∷ xs) d ((low, high), h) = absurd (omega arith)
length-InCommittee (suc n) xs d h = omega (
  arith,
  length-drop_all (suc n) xs d,
  length-InCommittee n (drop_all (suc n) xs) (drop_all-Distinct (suc n) xs d)
      (drop_all-InCommittee n xs h),
)

module _ {A : Type 0} ⦃key : KeyType A⦄ where
  -- A new keyper takes no vote away.
  pub votes-insert :
      (v w : A) (i : ℕ) (d : Dict ℕ A) → lookup i d ≡ none → votes v d ≤ votes v (insert i w d)
  unfolding votes
  votes-insert v w i [] h = omega arith
  votes-insert v w i ((j, u) ∷ d) h = elim (Bool-cases (i == j)) [
    | inl same ↦ absurd (clash (sym (rw same refl) ∙ h))
    | inr other ↦
        let rest = votes-insert v w i d (sym (rw other refl) ∙ h) in
        rw other (elim (Bool-cases (key.same v u)) [
          | inl this ↦ rw this (omega arith)
          | inr that ↦ rw that rest
        ])
  ]
    where
      clash : ◌≡◌ {A = Option A} (some u) none → ⊥
      clash e = cc
