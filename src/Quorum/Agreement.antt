-- ===== src/Quorum/Agreement.antt =====
-- core/quorum.py: a majority quorum is never in conflict, and its artifact is the one that enough
-- keypers submitted.
use generalised_elgamal_voti.Shared.{
  ℕ, zero, suc, ◌*◌, ◌≤◌, ◌<◌, ◌≡◌, ◌↔◌, inl, inr, refl, arith, true, false, List, [], ◌∷◌, length,
  leb, if◌then◌else◌, Elem, Distinct, Bool-cases, leb→le, le→leb, Option, none, some, ok,
}
use generalised_elgamal_voti.Shared.Keys.{KeyType}
use generalised_elgamal_voti.Shared.Dict.{Dict, keys}
use generalised_elgamal_voti.Quorum.{finalized, only, resolve_unique, group_from}
use generalised_elgamal_voti.Quorum.Groups.{
  total, total-group_from, size, size-group_from, votes, group_from-Distinct, AllFresh-nil,
}

short : (n needed bound : ℕ) → n * needed ≤ bound → bound < 2 * needed → n < 2
short zero needed bound h k = omega arith
short (suc zero) needed bound h k = omega arith
short (suc (suc n)) needed bound h k = absurd (omega arith)

module _ {A : Type 0} where
  length-finalized :
      (groups : Dict A (List ℕ)) (needed : ℕ)
      → length (finalized groups needed) * needed ≤ total groups
  unfolding finalized total
  length-finalized [] needed = omega arith
  length-finalized (g ∷ groups) needed =
      let rest = length-finalized groups needed in
      elim (Bool-cases (leb needed (length g.1))) [
        | inl enough ↦ rw enough (omega (arith, leb→le needed (length g.1) enough, rest))
        | inr few ↦ rw few (omega (arith, rest))
      ]

  only-short : (values : List A) → length values < 2 → (o : Option A) × (only values ≡ ok o)
  unfolding only
  only-short [] h = (none, refl)
  only-short (v ∷ []) h = (some v, refl)
  only-short (v ∷ w ∷ values) h = absurd (omega arith)

  only-some_iff :
      (v : A) (values : List A) → length values < 2 → (only values ≡ ok (some v)) ↔ Elem v values
  unfolding only
  only-some_iff v [] h = (λ e. cc, λ m. absurd m)
  only-some_iff v (w ∷ []) h = (λ e. inl cc, λ m. elim m [ inl e ↦ rw e | inr n ↦ absurd n ])
  only-some_iff v (w ∷ u ∷ values) h = absurd (omega arith)

module _ {A : Type 0} ⦃key : KeyType A⦄ where
  keys-finalized :
      (v : A) (groups : Dict A (List ℕ)) (needed : ℕ)
      → Elem v (finalized groups needed)
      → Elem v (keys groups)
  unfolding finalized
  keys-finalized v (g ∷ groups) needed m =
      elim (leb needed (length g.1))
          as (λ b.
            Elem v (if b then g.0 ∷ finalized groups needed else finalized groups needed)
            → Elem v (g.0 ∷ keys groups)) [
              | true ↦
                  λ n. elim n [ inl e ↦ inl e | inr k ↦ inr (keys-finalized v groups needed k) ]
              | false ↦ λ n. inr (keys-finalized v groups needed n)
            ]
        m
  keys-finalized v [] needed m = absurd m

  Elem-finalized_iff :
      (v : A) (groups : Dict A (List ℕ)) (needed : ℕ)
      → 1 ≤ needed
      → Distinct (keys groups)
      → Elem v (finalized groups needed) ↔ (needed ≤ size v groups)
  unfolding finalized size
  Elem-finalized_iff v [] needed some_needed d = (λ m. absurd m, λ h. absurd (omega arith))
  Elem-finalized_iff v (g ∷ groups) needed some_needed (new, d) =
      let rest = Elem-finalized_iff v groups needed some_needed d in
      elim (Bool-cases (key.same v g.0)) [
        | inl here ↦ elim (Bool-cases (leb needed (length g.1))) [
          | inl enough ↦
              rw (here, enough)
                (λ m. leb→le needed (length g.1) enough, λ h. inl ((key.same_iff v g.0).0 here))
          | inr few ↦
              rw (here, few)
                (
                  λ m.
                      absurd (
                        new
                          (rw (← (key.same_iff v g.0).0 here) (keys-finalized v groups needed m))),
                  λ h. cc (few, le→leb needed (length g.1) h),
                )
        ]
        | inr there ↦ elim (Bool-cases (leb needed (length g.1))) [
          | inl enough ↦
              rw (there, enough)
                (
                  λ m. elim m [ inl e ↦ cc (there, (key.same_iff v g.0).1 e) | inr k ↦ rest.0 k ],
                  λ h. inr (rest.1 h),
                )
          | inr few ↦ rw (there, few) rest
        ]
      ]

  module _ (submissions : Dict ℕ A) (n needed : ℕ) (few : length submissions ≤ n)
      (majority : n < 2 * needed) where
    at_most_one : length (finalized (group_from [] submissions) needed) < 2
    unfolding total
    at_most_one =
        let groups = group_from [] submissions in
        short (length (finalized groups needed)) needed (total groups)
          (length-finalized groups needed) (omega (arith, total-group_from [] submissions))

    -- Submissions of at most n keypers, with a quorum of more than half of n, are never in conflict.
    pub group_from-resolve_unique :
        (o : Option A) × (resolve_unique (group_from [] submissions) needed ≡ ok o)
    unfolding resolve_unique
    group_from-resolve_unique =
        only-short (finalized (group_from [] submissions) needed) at_most_one

    -- With one submission for each of at most n keypers and a quorum of more than half of n, the
    -- resolved artifact is v exactly when at least the quorum of keypers submitted v.
    pub resolve_unique-votes_iff :
        (v : A)
        → Distinct (keys submissions)
        → (resolve_unique (group_from [] submissions) needed ≡ ok (some v))
          ↔ (needed ≤ votes v submissions)
    unfolding resolve_unique size
    resolve_unique-votes_iff v d =
        let groups = group_from [] submissions in
        let answer = only-some_iff v (finalized groups needed) at_most_one in
        let enough =
          Elem-finalized_iff v groups needed (omega arith)
            (group_from-Distinct [] submissions tt) in
        let counted_votes = size-group_from v [] submissions d (AllFresh-nil submissions) in
        (
          λ h. omega (arith, counted_votes, enough.0 (answer.0 h)),
          λ h. answer.1 (enough.1 (omega (arith, counted_votes, h))),
        )
