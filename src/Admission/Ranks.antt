-- ===== src/Admission/Ranks.antt =====
-- core/admission.py: the order of ranks, and the two dictionaries of `_duplicate_losers`.
use generalised_elgamal_voti.Shared.{
  ℕ, ◌≡◌, inl, inr, refl, sym, ◌∙◌, ap, arith, true, false, ◌||◌, [], ◌∷◌, ◌==◌, ==_iff, Distinct,
  Bool-cases, some,
}
use generalised_elgamal_voti.Shared.Bytes.{Bytes}
use generalised_elgamal_voti.Shared.Keys.{
  same_list, same_list_iff, same_list_refl, number_key, bytes_key,
}
use generalised_elgamal_voti.Shared.Dict.{
  Dict, keys, lookup, insert, lookup-here, lookup-there, lookup-Elem,
}
use generalised_elgamal_voti.Config.{DuplicatePolicy, first_wins, last_wins}
use generalised_elgamal_voti.Envelopes.{StoredBallot}
use generalised_elgamal_voti.Admission.Defs.{less, beats, is_value}

abbrev pub number : StoredBallot → ℕ
number sb = sb.sequence_number

abbrev pub pseudonym : StoredBallot → Bytes
pseudonym sb = sb.envelope.pseudonym

pub beats_irrefl : (policy : DuplicatePolicy) (r : ℕ × ℕ) → beats policy r r ≡ false
unfolding beats less
beats_irrefl first_wins (a, b) = ground arith
beats_irrefl last_wins (a, b) = ground arith

-- What does not beat the old leader does not beat a new one.
pub beats_trans :
    (policy : DuplicatePolicy) (r s t : ℕ × ℕ)
    → beats policy r t ≡ false
    → beats policy s t ≡ true
    → beats policy r s ≡ false
unfolding beats less
beats_trans first_wins (a, b) (c, d) (e, f) h k = ground arith
beats_trans last_wins (a, b) (c, d) (e, f) h k = ground arith

pub beats_antisym :
    (policy : DuplicatePolicy) (r s : ℕ × ℕ)
    → beats policy r s ≡ false
    → beats policy s r ≡ false
    → r.1 ≡ s.1
unfolding beats less
beats_antisym first_wins (a, b) (c, d) h k = ground arith
beats_antisym last_wins (a, b) (c, d) h k = ground arith

unfoldable pub sequence_numbers : Dict Bytes (ℕ × ℕ) → Dict Bytes ℕ
sequence_numbers [] = []
sequence_numbers ((p, r) ∷ d) = (p, r.1) ∷ sequence_numbers d

pub insert-sequence_numbers :
    (p : Bytes) (r : ℕ × ℕ) (d : Dict Bytes (ℕ × ℕ))
    → insert p r.1 (sequence_numbers d) ≡ sequence_numbers (insert p r d)
unfolding sequence_numbers
insert-sequence_numbers p r [] = refl
insert-sequence_numbers p r ((q, s) ∷ d) = elim (Bool-cases (same_list p q)) [
  | inl it ↦ rw it
  | inr other ↦ rw (other, insert-sequence_numbers p r d)
]

pub some_injective : {A : Type 0} {a b : A} → some a ≡ some b → a ≡ b
some_injective h = cc

pub is_value-lookup :
    (n : ℕ) (p : Bytes) (r : ℕ × ℕ) (d : Dict Bytes (ℕ × ℕ))
    → lookup p d ≡ some r
    → r.1 ≡ n
    → is_value n (sequence_numbers d) ≡ true
unfolding is_value sequence_numbers
is_value-lookup n p r [] h e = cc
is_value-lookup n p r ((q, s) ∷ d) h e = elim (Bool-cases (same_list p q)) [
  | inl it ↦ ground (arith, e, some_injective (sym (lookup-here p (q, s) d it) ∙ h))
  | inr other ↦ ground (arith, is_value-lookup n p r d (sym (lookup-there p (q, s) d other) ∙ h) e)
]

pub is_value→lookup :
    (n : ℕ) (d : Dict Bytes (ℕ × ℕ))
    → Distinct (keys d)
    → is_value n (sequence_numbers d) ≡ true
    → (p : Bytes) × (r : ℕ × ℕ) × (lookup p d ≡ some r) × (r.1 ≡ n)
unfolding is_value sequence_numbers
is_value→lookup n [] u h = cc
is_value→lookup n ((q, s) ∷ d) (new, u) h = elim (Bool-cases (n == s.1)) [
  | inl here ↦ (q, s, lookup-here q (q, s) d (same_list_refl q), sym ((==_iff n s.1).0 here))
  | inr there ↦
      later (is_value→lookup n d u (sym (ap (λ b. b || is_value n (sequence_numbers d)) there) ∙ h))
]
  where
    later :
        (p : Bytes) × (r : ℕ × ℕ) × (lookup p d ≡ some r) × (r.1 ≡ n)
        → (p : Bytes) × (r : ℕ × ℕ) × (lookup p ((q, s) ∷ d) ≡ some r) × (r.1 ≡ n)
    later (p, r, found, e) = elim (Bool-cases (same_list p q)) [
      | inl it ↦ absurd (new (rw (← (same_list_iff p q).0 it) (lookup-Elem p r d found)))
      | inr other ↦ (p, r, lookup-there p (q, s) d other ∙ found, e)
    ]
