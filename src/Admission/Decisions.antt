-- ===== src/Admission/Decisions.antt =====
-- core/admission.py: which ballots `admit` admits.
use generalised_elgamal_voti.Shared.{
  ℕ, ◌≡◌, ◌↔◌, ◌⊎◌, inl, inr, refl, sym, subst, ◌∙◌, ap, Bool, true, false, List, [], ◌∷◌, map,
  Elem, Distinct, same_of_Distinct, Bool-cases, Option, none, some, Option-cases,
}
use generalised_elgamal_voti.Config.{DuplicatePolicy}
use generalised_elgamal_voti.Envelopes.{StoredBallot, ExclusionReason}
use generalised_elgamal_voti.Admission.Defs.{
  rank, beats, is_loser, valid_ballots, winning_ballots, AdmittedBallot, admitted_ballot, admission,
}
use generalised_elgamal_voti.Admission.Ranks.{number, pseudonym, beats_antisym}
use generalised_elgamal_voti.Admission.Winners.{is_loser_iff}

module _ (validate : StoredBallot → Option ExclusionReason) where
  valid-here :
      (o : StoredBallot) (sbs : List StoredBallot)
      → validate o ≡ none
      → valid_ballots validate (o ∷ sbs) ≡ o ∷ valid_ballots validate sbs
  unfolding valid_ballots
  valid-here o sbs fine = rw (fine, valid_ballots)

  valid-there :
      (o : StoredBallot) (sbs : List StoredBallot) (reason : ExclusionReason)
      → validate o ≡ some reason
      → valid_ballots validate (o ∷ sbs) ≡ valid_ballots validate sbs
  unfolding valid_ballots
  valid-there o sbs reason bad = rw (bad, valid_ballots)

  Elem-valid_ballots_iff :
      (sb : StoredBallot) (sbs : List StoredBallot)
      → Elem sb (valid_ballots validate sbs) ↔ (Elem sb sbs × (validate sb ≡ none))
  unfolding valid_ballots
  Elem-valid_ballots_iff sb [] = (λ m. absurd m, λ (m, _). absurd m)
  Elem-valid_ballots_iff sb (o ∷ sbs) =
      let rest = Elem-valid_ballots_iff sb sbs in
      elim (Option-cases (validate o)) [
        | inl fine ↦ rw (valid-here o sbs fine) (
          λ m. elim m [
            | inl e ↦ (inl e, ap validate e ∙ fine)
            | inr n ↦ (inr (rest.0 n).0, (rest.0 n).1)
          ],
          λ (m, h). elim m [ inl e ↦ inl e | inr n ↦ inr (rest.1 (n, h)) ],
        )
        | inr (reason, bad) ↦ rw (valid-there o sbs reason bad) (
          λ m. (inr (rest.0 m).0, (rest.0 m).1),
          λ (m, h). elim m [ inl e ↦ cc (bad, ap validate e, h) | inr n ↦ rest.1 (n, h) ],
        )
      ]

  valid_ballots-numbers :
      (n : ℕ) (sbs : List StoredBallot)
      → Elem n (map number (valid_ballots validate sbs))
      → Elem n (map number sbs)
  unfolding valid_ballots
  valid_ballots-numbers n [] m = m
  valid_ballots-numbers n (o ∷ sbs) m = elim (Option-cases (validate o)) [
    | inl fine ↦
        shift (valid_ballots-numbers n sbs)
          (subst (λ l. Elem n (map number l)) (valid-here o sbs fine) m)
    | inr (reason, bad) ↦ inr (
        valid_ballots-numbers n sbs
          (subst (λ l. Elem n (map number l)) (valid-there o sbs reason bad) m))
  ]
    where
      shift :
          (Elem n (map number (valid_ballots validate sbs)) → Elem n (map number sbs))
          → (n ≡ number o) ⊎ Elem n (map number (valid_ballots validate sbs))
          → (n ≡ number o) ⊎ Elem n (map number sbs)
      shift rest (inl e) = inl e
      shift rest (inr k) = inr (rest k)

  valid_ballots-Distinct :
      (sbs : List StoredBallot)
      → Distinct (map number sbs)
      → Distinct (map number (valid_ballots validate sbs))
  unfolding valid_ballots
  valid_ballots-Distinct [] d = tt
  valid_ballots-Distinct (o ∷ sbs) (new, d) = elim (Option-cases (validate o)) [
    | inl fine ↦
        rw (valid-here o sbs fine)
          (λ m. new (valid_ballots-numbers (number o) sbs m), valid_ballots-Distinct sbs d)
    | inr (reason, bad) ↦ rw (valid-there o sbs reason bad) (valid_ballots-Distinct sbs d)
  ]

module _ (loses : StoredBallot → Bool) where
  winning-here :
      (o : StoredBallot) (sbs : List StoredBallot)
      → loses o ≡ false
      → winning_ballots loses (o ∷ sbs) ≡ admitted_ballot o ∷ winning_ballots loses sbs
  unfolding winning_ballots
  winning-here o sbs wins = rw wins

  winning-there :
      (o : StoredBallot) (sbs : List StoredBallot)
      → loses o ≡ true
      → winning_ballots loses (o ∷ sbs) ≡ winning_ballots loses sbs
  unfolding winning_ballots
  winning-there o sbs lost = rw lost

  -- The admitted numbers are those of the winners.
  winning_ballots-number :
      (n : ℕ) (sbs : List StoredBallot)
      → Elem n (map (λ (a : AdmittedBallot). a.sequence_number) (winning_ballots loses sbs))
      → (o : StoredBallot) × Elem o sbs × (loses o ≡ false) × (n ≡ number o)
  unfolding winning_ballots admitted_ballot
  winning_ballots-number n [] m = absurd m
  winning_ballots-number n (o ∷ sbs) m = elim (Bool-cases (loses o)) [
    | inl lost ↦
        let (p, k, w, e) =
          winning_ballots-number n sbs (subst Holds (winning-there o sbs lost) m) in
        (p, inr k, w, e)
    | inr wins ↦ here wins (winning_ballots-number n sbs) (subst Holds (winning-here o sbs wins) m)
  ]
    where
      Holds : List AdmittedBallot → Type 0
      Holds l = Elem n (map (λ (a : AdmittedBallot). a.sequence_number) l)

      here :
          loses o ≡ false
          → (Holds (winning_ballots loses sbs)
              → (p : StoredBallot) × Elem p sbs × (loses p ≡ false) × (n ≡ number p))
          → Holds (admitted_ballot o ∷ winning_ballots loses sbs)
          → (p : StoredBallot) × Elem p (o ∷ sbs) × (loses p ≡ false) × (n ≡ number p)
      here wins rest (inl e) = (o, inl refl, wins, e)
      here wins rest (inr k) = let (p, j, w, e) = rest k in (p, inr j, w, e)

  number-winning_ballots :
      (o : StoredBallot) (sbs : List StoredBallot)
      → Elem o sbs
      → loses o ≡ false
      → Elem
          (number o)
          (map (λ (a : AdmittedBallot). a.sequence_number) (winning_ballots loses sbs))
  unfolding winning_ballots admitted_ballot
  number-winning_ballots o [] m wins = absurd m
  number-winning_ballots o (p ∷ sbs) (inl e) wins =
      rw (winning-here p sbs (sym (ap loses e) ∙ wins)) (inl (ap number e))
  number-winning_ballots o (p ∷ sbs) (inr m) wins = elim (Bool-cases (loses p)) [
    | inl lost ↦ rw (winning-there p sbs lost) (number-winning_ballots o sbs m wins)
    | inr won ↦ rw (winning-here p sbs won) (inr (number-winning_ballots o sbs m wins))
  ]

module _ (validate : StoredBallot → Option ExclusionReason) (policy : DuplicatePolicy)
    (ballots : List StoredBallot) (d : Distinct (map number ballots)) where
  -- Among ballots with distinct sequence numbers, a ballot is admitted exactly when it is valid and
  -- no valid ballot of its pseudonym beats its rank, which is the attested nonce and then the
  -- sequence number, under the duplicate policy.
  pub admission-admitted_iff :
      (sb : StoredBallot)
      → Elem sb ballots
      → Elem (number sb) (
          map
            (λ (a : AdmittedBallot). a.sequence_number)
            (admission validate policy ballots).admitted)
        ↔ ((validate sb ≡ none)
            × ((o : StoredBallot)
                → Elem o ballots
                → validate o ≡ none
                → pseudonym o ≡ pseudonym sb
                → beats policy (rank o) (rank sb) ≡ false))
  unfolding admission
  admission-admitted_iff sb here =
      let valid = valid_ballots validate ballots in
      let dv = valid_ballots-Distinct validate ballots d in
      (
        λ m.
            let (o, k, wins, e) =
              winning_ballots-number (is_loser policy valid) (number sb) valid m in
            let (there, fine) = (Elem-valid_ballots_iff validate o ballots).0 k in
            let it : o ≡ sb = same_of_Distinct number ballots o sb d there here (sym e) in
            (
              sym (ap validate it) ∙ fine,
              λ p n v s. rw (← it) (
                  (is_loser_iff policy valid o dv k).0 wins p
                    ((Elem-valid_ballots_iff validate p ballots).1 (n, v))
                    (s ∙ ap pseudonym (sym it))),
            ),
        λ (fine, best).
            let k = (Elem-valid_ballots_iff validate sb ballots).1 (here, fine) in
            number-winning_ballots (is_loser policy valid) sb valid k (
              (is_loser_iff policy valid sb dv k).1 (λ o m s.
                let (there, v) = (Elem-valid_ballots_iff validate o ballots).0 m in
                best o there v s)),
      )

  -- No two admitted ballots have the same pseudonym.
  pub admission-OnePerPseudonym :
      (a b : StoredBallot)
      → Elem a ballots
      → Elem b ballots
      → Elem (number a) (
          map
            (λ (x : AdmittedBallot). x.sequence_number)
            (admission validate policy ballots).admitted)
      → Elem (number b) (
          map
            (λ (x : AdmittedBallot). x.sequence_number)
            (admission validate policy ballots).admitted)
      → pseudonym a ≡ pseudonym b
      → a ≡ b
  unfolding rank
  admission-OnePerPseudonym a b here there m n same =
      let (fine, best) = (admission-admitted_iff a here).0 m in
      let (good, most) = (admission-admitted_iff b there).0 n in
      same_of_Distinct number ballots a b d here there (
        beats_antisym policy (rank a) (rank b) (most a here fine same)
          (best b there good (sym same)))
