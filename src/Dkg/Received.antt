-- ===== src/Dkg/Received.antt =====
-- crypto/dkg.py: the shares that a keyper received, in any order: one is taken out at a time.
use generalised_elgamal_voti.Shared.{
  ℕ, ◌+◌, ◌≡◌, ◌⊎◌, inl, inr, refl, sym, subst, ◌∙◌, arith, [], ◌∷◌, All, Elem, Distinct,
}
use generalised_elgamal_voti.Shared.Dict.{Dict, keys}
use generalised_elgamal_voti.Dkg.Defs.{sum_values}

-- `rest` is `received` without the share of dealer `d`.
pub record TakenOut (P : ℕ × ℕ → Type 0) (d : ℕ) (received : Dict ℕ ℕ) (share : ℕ) (rest : Dict ℕ ℕ)
    : Type 0 where
  pub total : sum_values received ≡ share + sum_values rest
  pub holds : All P received → P (d, share) × All P rest
  pub kept : (x : ℕ) → Elem x (keys received) → (x ≡ d) ⊎ Elem x (keys rest)
  pub from : (x : ℕ) → Elem x (keys rest) → Elem x (keys received)
  pub once : Distinct (keys received) → (¬ Elem d (keys rest)) × Distinct (keys rest)

pub take_out :
    (P : ℕ × ℕ → Type 0) (d : ℕ) (received : Dict ℕ ℕ)
    → Elem d (keys received)
    → (share : ℕ) × (rest : Dict ℕ ℕ) × TakenOut P d received share rest
take_out P d [] m = absurd m
take_out P d ((k, v) ∷ received) (inl here) = (
  v,
  received,
  record {
    total = refl;
    holds = λ (h, hs). (subst (λ x. P (x, v)) (sym here) h, hs);
    kept = λ x m. elim m [ inl e ↦ inl (e ∙ sym here) | inr n ↦ inr n ];
    from = λ x m. inr m;
    once = λ (new, u). (subst (λ x. ¬ Elem x (keys received)) (sym here) new, u);
  },
)
take_out P d ((k, v) ∷ received) (inr there) =
    let (share, rest, t) = take_out P d received there in
    (
      share,
      (k, v) ∷ rest,
      record {
        total = omega (arith, t.total);
        holds = λ (h, hs). let (one, others) = t.holds hs in (one, (h, others));
        kept = λ x m. elim m [
          | inl e ↦ inr (inl e)
          | inr n ↦ elim (t.kept x n) [ inl e ↦ inl e | inr r ↦ inr (inr r) ]
        ];
        from = λ x m. elim m [ inl e ↦ inl e | inr n ↦ inr (t.from x n) ];
        once = λ (new, u). (
          (λ m. elim m [
            | inl e ↦ new (subst (λ x. Elem x (keys received)) e there)
            | inr n ↦ (t.once u).0 n
          ]),
          ((λ m. new (t.from k m)), (t.once u).1),
        );
      },
    )
