-- ===== src/Admission/Screening.antt =====
-- core/admission.py: `admit` is the admission by the answers of the single-ballot check, and raises when
-- the check of some ballot does.
use generalised_elgamal_voti.Shared.{
  ◌≡◌, refl, sym, ap, ◌∙◌, inl, inr, List, [], ◌∷◌, Elem, Option, none, some, ok, err, Error,
  Fallible, ◌↔◌, Result-cases, Option-cases,
}
use generalised_elgamal_voti.Shared.Bytes.{Bytes}
use generalised_elgamal_voti.Points.{PointLibrary, g2_from_compressed}
use generalised_elgamal_voti.Config.{ElectionConfig}
use generalised_elgamal_voti.Envelopes.{ExclusionReason, StoredBallot, Exclusion}
use generalised_elgamal_voti.Admission.Defs.{
  valid_ballots, invalid_ballots, admission, screen, validate_ballot, admit, AdmissionResult,
}

fails : {A : Type 0} (e : Error) (a : A) → ¬ (◌≡◌ {A = Fallible A} (err e) (ok a))
fails e a h = cc

ok_injective : {A : Type 0} (a b : A) → ◌≡◌ {A = Fallible A} (ok a) (ok b) → a ≡ b
ok_injective a b h = cc

-- The answer of a check that does not raise.
abbrev pub answer_of : Fallible (Option ExclusionReason) → Option ExclusionReason
answer_of (ok answer) = answer
answer_of (err _) = none

module _ (answer : StoredBallot → Option ExclusionReason) (sb : StoredBallot)
    (sbs : List StoredBallot) where
  keeps :
      answer sb ≡ none
      → (valid_ballots answer (sb ∷ sbs) ≡ sb ∷ valid_ballots answer sbs)
        × (invalid_ballots answer (sb ∷ sbs) ≡ invalid_ballots answer sbs)
  unfolding valid_ballots invalid_ballots
  keeps h = (rw (h, valid_ballots), rw (h, invalid_ballots))

  drops :
      (reason : ExclusionReason)
      → answer sb ≡ some reason
      → (valid_ballots answer (sb ∷ sbs) ≡ valid_ballots answer sbs)
        × (invalid_ballots answer (sb ∷ sbs)
            ≡ record { sequence_number = sb.sequence_number; reason = reason }
              ∷ invalid_ballots answer sbs)
  unfolding valid_ballots invalid_ballots
  drops reason h = (rw (h, valid_ballots), rw (h, invalid_ballots))

module _ (validate : StoredBallot → Fallible (Option ExclusionReason)) where
  abbrev pub answers : StoredBallot → Option ExclusionReason
  answers sb = answer_of (validate sb)

  -- The check of every ballot has an answer.
  abbrev pub AllAnswered : List StoredBallot → Type 0
  AllAnswered [] = Unit
  AllAnswered (sb ∷ sbs) = (validate sb ≡ ok (answers sb)) × AllAnswered sbs

  screen-ok :
      (sbs : List StoredBallot)
      → AllAnswered sbs
      → screen validate sbs ≡ ok (valid_ballots answers sbs, invalid_ballots answers sbs)
  unfolding screen valid_ballots invalid_ballots
  screen-ok [] h = refl
  screen-ok (sb ∷ sbs) (h, hs) = elim (Result-cases (validate sb)) [
    | inl (answer, e) ↦ elim (Option-cases answer) [
      | inl keep ↦
          let (p, q) = keeps answers sb sbs (ap answer_of (e ∙ ap ok keep)) in
          rw (e, keep, screen-ok sbs hs, p, q)
      | inr (reason, drop) ↦
          let (p, q) = drops answers sb sbs reason (ap answer_of (e ∙ ap ok drop)) in
          rw (e, drop, screen-ok sbs hs, p, q)
    ]
    | inr (error, e) ↦ absurd (fails error (answers sb) (sym e ∙ h))
  ]

  screen-AllAnswered :
      (sbs : List StoredBallot) (out : List StoredBallot × List Exclusion)
      → screen validate sbs ≡ ok out
      → AllAnswered sbs
  unfolding screen
  screen-AllAnswered [] out h = tt
  screen-AllAnswered (sb ∷ sbs) out h = elim (Result-cases (validate sb)) [
    | inl (answer, e) ↦ elim (Result-cases (screen validate sbs)) [
      | inl (next, f) ↦ (e ∙ ap (λ r. ok (answer_of r)) (sym e), screen-AllAnswered sbs next f)
      | inr (error, f) ↦ absurd (fails error out (sym (rw (e, f)) ∙ h))
    ]
    | inr (error, e) ↦ absurd (fails error out (sym (rw e) ∙ h))
  ]

  screen-err :
      (sb : StoredBallot) (e : Error)
      → validate sb ≡ err e
      → (sbs : List StoredBallot) → Elem sb sbs
      → (e2 : Error) × (screen validate sbs ≡ err e2)
  unfolding screen
  screen-err sb e h [] m = absurd m
  screen-err sb e h (x ∷ sbs) (inl here) = (e, rw (← here, h))
  screen-err sb e h (x ∷ sbs) (inr there) =
      let (e2, f) = screen-err sb e h sbs there in
      elim (Result-cases (validate x)) [
        | inl (answer, g) ↦ (e2, rw (g, f))
        | inr (e3, g) ↦ (e3, rw g)
      ]

module _ (keccak : Bytes → Bytes) (G1 G2 : PointLibrary) (ballots : List StoredBallot)
    (config : ElectionConfig) (mpk_bytes : Bytes) (mpk : G2.Point)
    (decoded : g2_from_compressed G2 mpk_bytes ≡ ok mpk) where
  abbrev check : StoredBallot → Fallible (Option ExclusionReason)
  check sb = validate_ballot keccak G1 G2 sb config mpk

  -- Under a master key that decodes, `admit` returns exactly when the check of every ballot has an
  -- answer, and then it returns the admission by these answers.
  pub admit_iff :
      (result : AdmissionResult)
      → (admit keccak G1 G2 ballots config mpk_bytes ≡ ok result) ↔ (
          AllAnswered (λ sb. validate_ballot keccak G1 G2 sb config mpk) ballots
          × (admission
                (answers (λ sb. validate_ballot keccak G1 G2 sb config mpk))
                config.duplicate_policy
                ballots
              ≡ result))
  unfolding admit admission
  admit_iff result = (
    λ h. elim (Result-cases (screen check ballots)) [
      | inl (next, f) ↦
          let all = screen-AllAnswered check ballots next f in
          (all, ok_injective _ result (sym (rw (decoded, screen-ok check ballots all)) ∙ h))
      | inr (error, f) ↦ absurd (fails error result (sym (rw (decoded, f)) ∙ h))
    ],
    λ (all, e). rw (decoded, screen-ok check ballots all, e),
  )

  -- One ballot whose check raises makes `admit` raise, whatever the other ballots are.
  pub admit-raises :
      (sb : StoredBallot) (e : Error)
      → Elem sb ballots
      → validate_ballot keccak G1 G2 sb config mpk ≡ err e
      → (e2 : Error) × (admit keccak G1 G2 ballots config mpk_bytes ≡ err e2)
  unfolding admit
  admit-raises sb e m h = let (e2, f) = screen-err check sb e h ballots m in (e2, rw (decoded, f))
