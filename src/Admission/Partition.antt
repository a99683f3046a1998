-- ===== src/Admission/Partition.antt =====
-- core/admission.py: every ballot is admitted or excluded, once.
use mathlib.Core.List.Perm
use mathlib.Core.List.{Perm, perm_middle, perm_append_comm}
use generalised_elgamal_voti.Shared.{
  inl, inr, ℕ, ◌≡◌, refl, sym, subst, ap, Bool, List, [], ◌∷◌, ◌++◌, map, leb, Bool-cases,
  append_assoc, Option, Option-cases,
}
use generalised_elgamal_voti.Config.{DuplicatePolicy}
use generalised_elgamal_voti.Envelopes.{StoredBallot, Exclusion, ExclusionReason}
use generalised_elgamal_voti.Admission.Defs.{
  is_loser, valid_ballots, invalid_ballots, winning_ballots, losing_ballots, AdmittedBallot,
  admitted_ballot, admission, place_exclusion, sort_exclusions,
}
use generalised_elgamal_voti.Admission.Ranks.{number}

unfoldable pub admitted_numbers : List AdmittedBallot → List ℕ
admitted_numbers [] = []
admitted_numbers (a ∷ rest) = a.sequence_number ∷ admitted_numbers rest

unfoldable pub excluded_numbers : List Exclusion → List ℕ
excluded_numbers [] = []
excluded_numbers (e ∷ rest) = e.sequence_number ∷ excluded_numbers rest

excluded_numbers-append :
    (es fs : List Exclusion)
    → excluded_numbers (es ++ fs) ≡ excluded_numbers es ++ excluded_numbers fs
unfolding excluded_numbers
excluded_numbers-append [] fs = refl
excluded_numbers-append (e ∷ es) fs = ap (◌∷◌ e.sequence_number) (excluded_numbers-append es fs)

place_exclusion-Perm :
    (e : Exclusion) (es : List Exclusion)
    → Perm (excluded_numbers (place_exclusion e es)) (e.sequence_number ∷ excluded_numbers es)
unfolding place_exclusion excluded_numbers
place_exclusion-Perm e [] = Perm.refl _
place_exclusion-Perm e (f ∷ fs) = elim (Bool-cases (leb e.sequence_number f.sequence_number)) [
  | inl before ↦ rw before (Perm.refl _)
  | inr after ↦ rw after (
      Perm.trans (Perm.cons f.sequence_number (place_exclusion-Perm e fs))
        (Perm.swap _ _ (excluded_numbers fs)))
]

sort_exclusions-Perm :
    (es : List Exclusion) → Perm (excluded_numbers (sort_exclusions es)) (excluded_numbers es)
unfolding sort_exclusions excluded_numbers
sort_exclusions-Perm [] = Perm.refl _
sort_exclusions-Perm (e ∷ es) =
    Perm.trans (place_exclusion-Perm e (sort_exclusions es))
      (Perm.cons e.sequence_number (sort_exclusions-Perm es))

validation-Perm :
    (validate : StoredBallot → Option ExclusionReason) (sbs : List StoredBallot)
    → Perm
        (map number (valid_ballots validate sbs) ++ excluded_numbers (invalid_ballots validate sbs))
        (map number sbs)
unfolding valid_ballots invalid_ballots excluded_numbers
validation-Perm validate [] = Perm.refl _
validation-Perm validate (sb ∷ sbs) = elim (Option-cases (validate sb)) [
  | inl fine ↦
      rw (fine, valid_ballots, invalid_ballots)
        (Perm.cons (number sb) (validation-Perm validate sbs))
  | inr (reason, bad) ↦
      rw (bad, valid_ballots, invalid_ballots)
        (Perm.trans (perm_middle (map number (valid_ballots validate sbs)) _)
          (Perm.cons (number sb) (validation-Perm validate sbs)))
]

duplicates-Perm :
    (loses : StoredBallot → Bool) (sbs : List StoredBallot)
    → Perm
        (admitted_numbers (winning_ballots loses sbs)
          ++ excluded_numbers (losing_ballots loses sbs))
        (map number sbs)
unfolding winning_ballots losing_ballots admitted_ballot admitted_numbers excluded_numbers
duplicates-Perm loses [] = Perm.refl _
duplicates-Perm loses (sb ∷ sbs) = elim (Bool-cases (loses sb)) [
  | inl lost ↦
      rw (lost, winning_ballots, losing_ballots)
        (Perm.trans (perm_middle (admitted_numbers (winning_ballots loses sbs)) _)
          (Perm.cons (number sb) (duplicates-Perm loses sbs)))
  | inr won ↦
      rw (won, winning_ballots, losing_ballots) (Perm.cons (number sb) (duplicates-Perm loses sbs))
]

-- The sequence numbers of the admitted ballots followed by those of the exclusions are those of the
-- given ballots in some order.
pub admission-Perm :
    (validate : StoredBallot → Option ExclusionReason) (policy : DuplicatePolicy)
    (ballots : List StoredBallot)
    → Perm
        (admitted_numbers (admission validate policy ballots).admitted
          ++ excluded_numbers (admission validate policy ballots).exclusions)
        (map number ballots)
unfolding admission
admission-Perm validate policy ballots =
    let valid = valid_ballots validate ballots in
    let loses = is_loser policy valid in
    let won = admitted_numbers (winning_ballots loses valid) in
    let lost = excluded_numbers (losing_ballots loses valid) in
    let bad = excluded_numbers (invalid_ballots validate ballots) in
    let listed = invalid_ballots validate ballots ++ losing_ballots loses valid in
    let sorted : Perm (won ++ excluded_numbers (sort_exclusions listed)) (won ++ (bad ++ lost)) =
      Perm.append_left won (
        subst (Perm (excluded_numbers (sort_exclusions listed)))
          (excluded_numbers-append (invalid_ballots validate ballots) (losing_ballots loses valid))
          (sort_exclusions-Perm listed)) in
    let swapped : Perm (won ++ (bad ++ lost)) ((won ++ lost) ++ bad) =
      subst (Perm (won ++ (bad ++ lost))) (sym (append_assoc won lost bad))
        (Perm.append_left won (perm_append_comm bad lost)) in
    Perm.trans sorted (
      Perm.trans swapped (
        Perm.trans (Perm.append_right bad (duplicates-Perm loses valid))
          (validation-Perm validate ballots)))
