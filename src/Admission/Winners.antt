-- ===== src/Admission/Winners.antt =====
-- core/admission.py: `_duplicate_losers` keeps, of each pseudonym, the ballot of the best rank.
use generalised_elgamal_voti.Shared.{
  same_of_Distinct, ℕ, ◌≡◌, ◌≢◌, ◌↔◌, ◌⊎◌, inl, inr, refl, sym, ◌∙◌, ap, Bool, true, false, not,
  List, [], ◌∷◌, map, Elem, Distinct, Bool-cases, Option, none, some, Option-cases,
}
use generalised_elgamal_voti.Shared.Bytes.{Bytes}
use generalised_elgamal_voti.Shared.Keys.{same_list, same_list_iff, number_key, bytes_key}
use generalised_elgamal_voti.Shared.Dict.{
  keys, lookup, insert, lookup-insert_self, lookup-insert_ne, keys-insert-Distinct,
}
use generalised_elgamal_voti.Config.{DuplicatePolicy}
use generalised_elgamal_voti.Envelopes.{StoredBallot}
use generalised_elgamal_voti.Admission.Defs.{
  rank, beats, Winners, put_winner, consider, winners_from, no_winners, is_value, is_loser,
}
use generalised_elgamal_voti.Admission.Ranks.{
  number, pseudonym, beats_irrefl, beats_trans, beats_antisym, sequence_numbers,
  insert-sequence_numbers, some_injective, is_value-lookup, is_value→lookup,
}

module _ (policy : DuplicatePolicy) where
  -- r is the best rank among the ballots seen under the pseudonym p, and one of them has it.
  record Leads (Seen : StoredBallot → Type 0) (p : Bytes) (r : ℕ × ℕ) : Type 0 where
    pub leader : StoredBallot
    pub seen : Seen leader
    pub named : pseudonym leader ≡ p
    pub ranked : rank leader ≡ r
    pub unbeaten : (o : StoredBallot) → Seen o → pseudonym o ≡ p → beats policy (rank o) r ≡ false

  record Keeps (Seen : StoredBallot → Type 0) (w : Winners) : Type 0 where
    pub leads : (p : Bytes) (r : ℕ × ℕ) → lookup p w.winner_rank ≡ some r → Leads Seen p r
    pub missing :
        (p : Bytes) → lookup p w.winner_rank ≡ none → (o : StoredBallot) → Seen o → pseudonym o ≢ p
    pub numbers : w.winner_seq ≡ sequence_numbers w.winner_rank
    pub distinct : Distinct (keys w.winner_rank)

  Or : (StoredBallot → Type 0) → StoredBallot → StoredBallot → Type 0
  Or Seen sb o = Seen o ⊎ (o ≡ sb)

  some-none : {A : Type 0} {o : Option A} {a : A} → o ≡ none → o ≡ some a → ⊥
  some-none h k = cc

  weaken :
      (Seen : StoredBallot → Type 0) (sb : StoredBallot) (p : Bytes) (r : ℕ × ℕ)
      → Leads Seen p r
      → (pseudonym sb ≡ p → beats policy (rank sb) r ≡ false)
      → Leads (Or Seen sb) p r
  unfolding Or
  weaken Seen sb p r l h = record {
    leader = l.leader;
    seen = inl l.seen;
    named = l.named;
    ranked = l.ranked;
    unbeaten =
        λ o m n. elim m [ inl s ↦ l.unbeaten o s n | inr e ↦ rw e (h (ap pseudonym (sym e) ∙ n)) ];
  }

  module _ (Seen : StoredBallot → Type 0) (sb : StoredBallot) (w : Winners) (k : Keeps Seen w)
      (best : (o : StoredBallot)
        → Seen o
        → pseudonym o ≡ pseudonym sb
        → beats policy (rank o) (rank sb) ≡ false) where
    put_winner-Leads :
        (p : Bytes) (r : ℕ × ℕ)
        → lookup p (insert (pseudonym sb) (rank sb) w.winner_rank) ≡ some r
        → Leads (Or Seen sb) p r
    unfolding Or
    put_winner-Leads p r found = elim (Bool-cases (same_list p (pseudonym sb))) [
      | inl it ↦
          let e = (same_list_iff p (pseudonym sb)).0 it in
          let now : rank sb ≡ r = some_injective (
            sym (lookup-insert_self (pseudonym sb) (rank sb) w.winner_rank)
            ∙ ap (λ q. lookup q (insert (pseudonym sb) (rank sb) w.winner_rank)) (sym e)
            ∙ found) in
          record {
            leader = sb;
            seen = inr refl;
            named = sym e;
            ranked = now;
            unbeaten = λ o m n. elim m [
              | inl s ↦ rw (← now) (best o s (n ∙ e))
              | inr q ↦ rw (← now, q) (beats_irrefl policy (rank sb))
            ];
          }
      | inr other ↦
          weaken Seen sb p r
            (k.leads p r
              (sym (lookup-insert_ne (pseudonym sb) p (rank sb) w.winner_rank other) ∙ found))
            (λ n. cc (other, (same_list_iff p (pseudonym sb)).1 (sym n)))
    ]

    put_winner-missing :
        (p : Bytes)
        → lookup p (insert (pseudonym sb) (rank sb) w.winner_rank) ≡ none
        → (o : StoredBallot) → Or Seen sb o
        → pseudonym o ≢ p
    unfolding Or
    put_winner-missing p gone o m n = elim (Bool-cases (same_list p (pseudonym sb))) [
      | inl it ↦ some-none gone (
          ap (λ q. lookup q (insert (pseudonym sb) (rank sb) w.winner_rank))
            ((same_list_iff p (pseudonym sb)).0 it)
          ∙ lookup-insert_self (pseudonym sb) (rank sb) w.winner_rank)
      | inr other ↦ elim m [
        | inl s ↦
            k.missing p
              (sym (lookup-insert_ne (pseudonym sb) p (rank sb) w.winner_rank other) ∙ gone) o s n
        | inr q ↦ cc (other, (same_list_iff p (pseudonym sb)).1 (sym n ∙ ap pseudonym q))
      ]
    ]

    Keeps-put_winner : Keeps (Or Seen sb) (put_winner sb w)
    unfolding put_winner
    Keeps-put_winner = record {
      leads = put_winner-Leads;
      missing = put_winner-missing;
      numbers =
          ap (insert (pseudonym sb) sb.sequence_number) k.numbers
          ∙ insert-sequence_numbers (pseudonym sb) (rank sb) w.winner_rank;
      distinct = keys-insert-Distinct (pseudonym sb) (rank sb) w.winner_rank k.distinct;
    }

  Keeps-unchanged :
      (Seen : StoredBallot → Type 0) (sb : StoredBallot) (w : Winners)
      → Keeps Seen w
      → (r : ℕ × ℕ) → lookup (pseudonym sb) w.winner_rank ≡ some r
      → beats policy (rank sb) r ≡ false
      → Keeps (Or Seen sb) w
  unfolding Or
  Keeps-unchanged Seen sb w k r found worse = record {
    leads = λ p s f.
        weaken Seen sb p s (k.leads p s f) (λ n.
          rw (some_injective (sym f ∙ ap (λ q. lookup q w.winner_rank) (sym n) ∙ found)) worse);
    missing = λ p gone o m n. elim m [
      | inl s ↦ k.missing p gone o s n
      | inr q ↦ some-none gone (ap (λ t. lookup t w.winner_rank) (sym n ∙ ap pseudonym q) ∙ found)
    ];
    numbers = k.numbers;
    distinct = k.distinct;
  }

  Keeps-consider :
      (Seen : StoredBallot → Type 0) (sb : StoredBallot) (w : Winners)
      → Keeps Seen w
      → Keeps (Or Seen sb) (consider policy sb (lookup (pseudonym sb) w.winner_rank) w)
  unfolding consider
  Keeps-consider Seen sb w k = elim (Option-cases (lookup (pseudonym sb) w.winner_rank)) [
    | inl gone ↦
        rw gone
          (Keeps-put_winner Seen sb w k (λ o s n. absurd (k.missing (pseudonym sb) gone o s n)))
    | inr (r, found) ↦
        let l = k.leads (pseudonym sb) r found in
        elim (Bool-cases (beats policy (rank sb) r)) [
          | inl better ↦
              rw (found, better)
                (Keeps-put_winner Seen sb w k
                  (λ o s n. beats_trans policy (rank o) (rank sb) r (l.unbeaten o s n) better))
          | inr worse ↦ rw (found, worse) (Keeps-unchanged Seen sb w k r found worse)
        ]
  ]

  Keeps-map :
      (S T : StoredBallot → Type 0) (w : Winners)
      → ((o : StoredBallot) → S o ↔ T o)
      → Keeps S w
      → Keeps T w
  Keeps-map S T w e k = record {
    leads = λ p r f.
        let l = k.leads p r f in
        record {
          leader = l.leader;
          seen = (e l.leader).0 l.seen;
          named = l.named;
          ranked = l.ranked;
          unbeaten = λ o t n. l.unbeaten o ((e o).1 t) n;
        };
    missing = λ p gone o t n. k.missing p gone o ((e o).1 t) n;
    numbers = k.numbers;
    distinct = k.distinct;
  }

  regroup :
      (Seen : StoredBallot → Type 0) (sb : StoredBallot) (sbs : List StoredBallot)
      (o : StoredBallot)
      → (Or Seen sb o ⊎ Elem o sbs) ↔ (Seen o ⊎ Elem o (sb ∷ sbs))
  unfolding Or
  regroup Seen sb sbs o = (
    λ m. elim m [ inl n ↦ elim n [ inl s ↦ inl s | inr e ↦ inr (inl e) ] | inr k ↦ inr (inr k) ],
    λ m. elim m [ inl s ↦ inl (inl s) | inr n ↦ elim n [ inl e ↦ inl (inr e) | inr k ↦ inr k ] ],
  )

  Keeps-winners_from :
      (Seen : StoredBallot → Type 0) (w : Winners) (sbs : List StoredBallot)
      → Keeps Seen w
      → Keeps (λ o. Seen o ⊎ Elem o sbs) (winners_from policy w sbs)
  unfolding winners_from
  Keeps-winners_from Seen w [] k =
      Keeps-map Seen (λ o. Seen o ⊎ ⊥) w
        (λ o. (λ s. inl s, λ m. elim m [ inl s ↦ s | inr n ↦ absurd n ])) k
  Keeps-winners_from Seen w (sb ∷ sbs) k =
      let next = consider policy sb (lookup (pseudonym sb) w.winner_rank) w in
      Keeps-map (λ o. Or Seen sb o ⊎ Elem o sbs) (λ o. Seen o ⊎ Elem o (sb ∷ sbs))
        (winners_from policy next sbs) (regroup Seen sb sbs)
        (Keeps-winners_from (Or Seen sb) next sbs (Keeps-consider Seen sb w k))

  Keeps-no_winners : Keeps (λ o. ⊥) no_winners
  unfolding no_winners sequence_numbers
  Keeps-no_winners = record {
    leads = λ p r f. cc;
    missing = λ p gone o m n. m;
    numbers = refl;
    distinct = tt;
  }

  lost : (b : Bool) → not b ≡ false → b ≡ true
  lost true h = refl
  lost false h = cc

  ended : {A : Type 0} → ⊥ ⊎ A → A
  ended (inl n) = absurd n
  ended (inr a) = a

  module _ (valid : List StoredBallot) (sb : StoredBallot) (d : Distinct (map number valid))
      (here : Elem sb valid) where
    final : Winners
    final = winners_from policy no_winners valid

    kept : Keeps (λ o. ⊥ ⊎ Elem o valid) final
    unfolding final
    kept = Keeps-winners_from (λ o. ⊥) no_winners valid Keeps-no_winners

    winner-unbeaten :
        is_value (number sb) (sequence_numbers final.winner_rank) ≡ true
        → (o : StoredBallot) → Elem o valid
        → pseudonym o ≡ pseudonym sb
        → beats policy (rank o) (rank sb) ≡ false
    unfolding rank
    winner-unbeaten h o m n =
        let (p, r, found, e) = is_value→lookup (number sb) final.winner_rank kept.distinct h in
        let l = kept.leads p r found in
        let it : l.leader ≡ sb =
          same_of_Distinct number valid l.leader sb d (ended l.seen) here
            (numbered l.leader r l.ranked ∙ e) in
        rw (sym (ap rank it) ∙ l.ranked)
          (l.unbeaten o (inr m) (n ∙ ap pseudonym (sym it) ∙ l.named))
      where
        numbered : (a : StoredBallot) (r : ℕ × ℕ) → rank a ≡ r → number a ≡ r.1
        numbered a r e = ap (λ (s : ℕ × ℕ). s.1) e

    unbeaten-winner :
        ((o : StoredBallot)
          → Elem o valid
          → pseudonym o ≡ pseudonym sb
          → beats policy (rank o) (rank sb) ≡ false)
        → is_value (number sb) (sequence_numbers final.winner_rank) ≡ true
    unfolding rank
    unbeaten-winner h = elim (Option-cases (lookup (pseudonym sb) final.winner_rank)) [
      | inl gone ↦ absurd (kept.missing (pseudonym sb) gone sb (inr here) refl)
      | inr (r, found) ↦
          let l = kept.leads (pseudonym sb) r found in
          is_value-lookup (number sb) (pseudonym sb) r final.winner_rank found (
            beats_antisym policy r (rank sb) (rw (← l.ranked) (h l.leader (ended l.seen) l.named))
              (l.unbeaten sb (inr here) refl))
    ]

    -- Among ballots with distinct sequence numbers, one is no loser exactly when no ballot of its
    -- pseudonym beats its rank.
    pub is_loser_iff : (is_loser policy valid sb ≡ false) ↔ (
        (o : StoredBallot)
        → Elem o valid
        → pseudonym o ≡ pseudonym sb
        → beats policy (rank o) (rank sb) ≡ false)
    unfolding is_loser final
    is_loser_iff = (
      λ h. winner-unbeaten (sym (ap (is_value (number sb)) kept.numbers) ∙ lost _ h),
      λ h. ap not (ap (is_value (number sb)) kept.numbers ∙ unbeaten-winner h),
    )
