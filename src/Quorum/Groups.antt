-- ===== src/Quorum/Groups.antt =====
-- adapters/memory.py: how many keypers stand in the groups that the submissions are put into.
use generalised_elgamal_voti.Shared.{
  ℕ, suc, ◌+◌, ◌≤◌, ◌≡◌, ◌≢◌, ◌⊎◌, inl, inr, refl, sym, ◌∙◌, arith, Bool, true, false, ◌||◌, List,
  [], ◌∷◌, ◌++◌, length, length-append, ◌==◌, if◌then◌else◌, All, Elem, Distinct, Bool-cases,
}
use generalised_elgamal_voti.Shared.Keys.{KeyType}
use generalised_elgamal_voti.Shared.Dict.{Dict, keys}
use generalised_elgamal_voti.Quorum.{contains, add, add_to_group, group_from}

contains-append : (i j : ℕ) (s : List ℕ) → contains i (s ++ j ∷ []) ≡ (contains i s || (i == j))
unfolding contains
contains-append i j [] = ground arith
contains-append i j (k ∷ s) = ground (arith, contains-append i j s)

contains-add_ne :
    (i j : ℕ) (s : List ℕ) → i ≢ j → contains i s ≡ false → contains i (add j s) ≡ false
unfolding add
contains-add_ne i j s ne fresh = ground (arith, contains-append i j s)

length-add : (i : ℕ) (s : List ℕ) → length (add i s) ≤ suc (length s)
unfolding add
length-add i s = ground (arith, length-append s (i ∷ []))

length-add_fresh : (i : ℕ) (s : List ℕ) → contains i s ≡ false → length (add i s) ≡ suc (length s)
unfolding add
length-add_fresh i s fresh = ground (arith, length-append s (i ∷ []))

counted :
    (b : Bool) {a c : ℕ} (n m : ℕ)
    → a ≡ c + m
    → c ≡ (if b then suc n else n)
    → a ≡ n + (if b then suc m else m)
counted true n m h k = omega arith
counted false n m h k = omega arith

module _ {A : Type 0} where
  -- How many keypers stand in the groups.
  unfoldable pub total : Dict A (List ℕ) → ℕ
  total [] = 0
  total (g ∷ groups) = length g.1 + total groups

module _ {A : Type 0} ⦃key : KeyType A⦄ where
  total-add_to_group :
      (v : A) (i : ℕ) (groups : Dict A (List ℕ))
      → total (add_to_group v i groups) ≤ suc (total groups)
  unfolding add_to_group total
  total-add_to_group v i [] = omega arith
  total-add_to_group v i (g ∷ groups) = elim (Bool-cases (key.same v g.0)) [
    | inl same ↦ rw same (omega (arith, length-add i g.1))
    | inr other ↦ rw other (omega (arith, total-add_to_group v i groups))
  ]

  pub total-group_from :
      (groups : Dict A (List ℕ)) (submissions : Dict ℕ A)
      → total (group_from groups submissions) ≤ total groups + length submissions
  unfolding group_from
  total-group_from groups [] = omega arith
  total-group_from groups ((i, v) ∷ submissions) =
      omega (
        arith,
        total-group_from (add_to_group v i groups) submissions,
        total-add_to_group v i groups,
      )

  -- The keypers in the group of `v`, and how many submitted `v`.
  unfoldable pub size : A → Dict A (List ℕ) → ℕ
  size v [] = 0
  size v (g ∷ groups) = if key.same v g.0 then length g.1 else size v groups

  unfoldable pub votes : A → Dict ℕ A → ℕ
  votes v [] = 0
  votes v ((i, w) ∷ submissions) =
      if key.same v w then suc (votes v submissions) else votes v submissions

  -- No group has keyper i.
  unfoldable pub Fresh : ℕ → Dict A (List ℕ) → Type 0
  Fresh i groups = All (λ (g : A × List ℕ). contains i g.1 ≡ false) groups

  size-add_to_group :
      (v w : A) (i : ℕ) (groups : Dict A (List ℕ))
      → Fresh i groups
      → size v (add_to_group w i groups)
        ≡ (if key.same v w then suc (size v groups) else size v groups)
  unfolding add_to_group size Fresh
  size-add_to_group v w i [] fresh = refl
  size-add_to_group v w i (g ∷ groups) (f, fresh) =
      let rest = size-add_to_group v w i groups fresh in
      elim (Bool-cases (key.same w g.0)) [
        | inl same ↦ rw (same, (key.same_iff w g.0).0 same) (joined (key.same v g.0))
        | inr other ↦ elim (Bool-cases (key.same v g.0)) [
          | inl here ↦ rw (other, here, elsewhere other here)
          | inr there ↦ rw (other, there) rest
        ]
      ]
    where
      joined :
          (b : Bool)
          → (if b then length (add i g.1) else size v groups) ≡ (
              if b
              then suc (if b then length g.1 else size v groups)
              else (if b then length g.1 else size v groups))
      joined true = length-add_fresh i g.1 f
      joined false = refl

      elsewhere : key.same w g.0 ≡ false → key.same v g.0 ≡ true → key.same v w ≡ false
      elsewhere other here = elim (Bool-cases (key.same v w)) [
        | inl it ↦ cc (
          other,
          (key.same_iff w g.0).1 (sym ((key.same_iff v w).0 it) ∙ (key.same_iff v g.0).0 here),
        )
        | inr not_it ↦ not_it
      ]

  Fresh-add_to_group :
      (i j : ℕ) (w : A) (groups : Dict A (List ℕ))
      → i ≢ j
      → Fresh i groups
      → Fresh i (add_to_group w j groups)
  unfolding add_to_group Fresh
  Fresh-add_to_group i j w [] ne fresh = (ground arith, tt)
  Fresh-add_to_group i j w (g ∷ groups) ne (f, fresh) = elim (Bool-cases (key.same w g.0)) [
    | inl same ↦ rw same (contains-add_ne i j g.1 ne f, fresh)
    | inr other ↦ rw other (f, Fresh-add_to_group i j w groups ne fresh)
  ]

  keys-add_to_group :
      (u v : A) (i : ℕ) (groups : Dict A (List ℕ))
      → Elem u (keys (add_to_group v i groups))
      → (u ≡ v) ⊎ Elem u (keys groups)
  unfolding add_to_group
  keys-add_to_group u v i [] (inl e) = inl e
  keys-add_to_group u v i [] (inr m) = absurd m
  keys-add_to_group u v i (g ∷ groups) m =
      elim (key.same v g.0)
          as (λ b.
            Elem u (keys (if b then (g.0, add i g.1) ∷ groups else g ∷ add_to_group v i groups))
            → (u ≡ v) ⊎ Elem u (g.0 ∷ keys groups)) [
              | true ↦ λ n. inr n
              | false ↦ λ n. elim n [
                | inl e ↦ inr (inl e)
                | inr n' ↦ elim (keys-add_to_group u v i groups n') [
                  | inl e ↦ inl e
                  | inr k ↦ inr (inr k)
                ]
              ]
            ]
        m

  keys-Distinct :
      (v : A) (i : ℕ) (groups : Dict A (List ℕ))
      → Distinct (keys groups)
      → Distinct (keys (add_to_group v i groups))
  unfolding add_to_group
  keys-Distinct v i [] d = (λ m. m, tt)
  keys-Distinct v i (g ∷ groups) (new, d) = elim (Bool-cases (key.same v g.0)) [
    | inl same ↦ rw same (new, d)
    | inr other ↦ rw other (
      λ m. elim (keys-add_to_group g.0 v i groups m) [
        | inl e ↦ cc (other, (key.same_iff v g.0).1 (sym e))
        | inr k ↦ new k
      ],
      keys-Distinct v i groups d,
    )
  ]

  unfoldable pub AllFresh : Dict ℕ A → Dict A (List ℕ) → Type 0
  AllFresh submissions groups = All (λ (f : ℕ × A). Fresh f.0 groups) submissions

  AllFresh-add_to_group :
      (i : ℕ) (w : A) (groups : Dict A (List ℕ)) (submissions : Dict ℕ A)
      → ¬ Elem i (keys submissions)
      → AllFresh submissions groups
      → AllFresh submissions (add_to_group w i groups)
  unfolding AllFresh
  AllFresh-add_to_group i w groups [] new fresh = tt
  AllFresh-add_to_group i w groups (f ∷ submissions) new (one, fresh) = (
    Fresh-add_to_group f.0 i w groups (λ e. new (inl (sym e))) one,
    AllFresh-add_to_group i w groups submissions (λ m. new (inr m)) fresh,
  )

  pub size-group_from :
      (v : A) (groups : Dict A (List ℕ)) (submissions : Dict ℕ A)
      → Distinct (keys submissions)
      → AllFresh submissions groups
      → size v (group_from groups submissions) ≡ size v groups + votes v submissions
  unfolding group_from votes AllFresh
  size-group_from v groups [] d fresh = omega arith
  size-group_from v groups ((i, w) ∷ submissions) (new, d) (f, fresh) =
      let rest =
        size-group_from v (add_to_group w i groups) submissions d
          (AllFresh-add_to_group i w groups submissions new fresh) in
      counted (key.same v w) (size v groups) (votes v submissions) rest
        (size-add_to_group v w i groups f)

  pub group_from-Distinct :
      (groups : Dict A (List ℕ)) (submissions : Dict ℕ A)
      → Distinct (keys groups)
      → Distinct (keys (group_from groups submissions))
  unfolding group_from
  group_from-Distinct groups [] d = d
  group_from-Distinct groups ((i, v) ∷ submissions) d =
      group_from-Distinct (add_to_group v i groups) submissions (keys-Distinct v i groups d)

  pub AllFresh-nil : (submissions : Dict ℕ A) → AllFresh submissions []
  unfolding AllFresh Fresh
  AllFresh-nil [] = tt
  AllFresh-nil (f ∷ submissions) = (tt, AllFresh-nil submissions)
