-- ===== src/DataLayer/Tally.antt =====
-- adapters/memory.py and core/admission.py: what the data layer promises to the admission.
use generalised_elgamal_voti.Shared.{
  ℕ, suc, ◌≤◌, ◌≡◌, ◌≢◌, refl, ap, ◌∙◌, arith, inl, inr, false, List, [], ◌∷◌, map, length, take,
  drop, Elem, Distinct, some, ok, Fallible, ◌>>=◌,
}
use generalised_elgamal_voti.Shared.Bytes.{Bytes}
use generalised_elgamal_voti.Shared.Dict.{lookup}
use generalised_elgamal_voti.Shared.Keys.{bytes_key}
use generalised_elgamal_voti.Points.{PointLibrary}
use generalised_elgamal_voti.Config.{ElectionConfig}
use generalised_elgamal_voti.Ballot.{verify_ballot_crypto, BallotVerdict}
use generalised_elgamal_voti.Envelopes.{out_of_window, StoredBallot}
use generalised_elgamal_voti.Admission.{
  is_out_of_window, reason_of, ciphertext_bytes, validate_ballot,
}
use generalised_elgamal_voti.Admission.Ranks.{number}
use generalised_elgamal_voti.WriteAuth.{SignatureLibrary}
use generalised_elgamal_voti.DataLayer.Defs.{Stored}
use generalised_elgamal_voti.DataLayer.Layer.{
  DataLayer, new_data_layer, get, list_ballots, count_ballots,
}
use generalised_elgamal_voti.State.{is_voting_open}
use generalised_elgamal_voti.DataLayer.Invariant.{Numbered, Timely}
use generalised_elgamal_voti.DataLayer.Reach.{Reach, Reach-IsSound}

Numbered-Elem :
    (n i : ℕ) (sbs : List StoredBallot) → Numbered i sbs → Elem n (map number sbs) → i ≤ n
Numbered-Elem n i [] h m = absurd m
Numbered-Elem n i (sb ∷ sbs) (e, h) (inl here) = omega arith
Numbered-Elem n i (sb ∷ sbs) (e, h) (inr there) = omega (arith, Numbered-Elem n (suc i) sbs h there)

Numbered-Distinct : (i : ℕ) (sbs : List StoredBallot) → Numbered i sbs → Distinct (map number sbs)
Numbered-Distinct i [] h = tt
Numbered-Distinct i (sb ∷ sbs) (e, h) = (
  (λ m. absurd (omega (arith, Numbered-Elem (number sb) (suc i) sbs h m))),
  Numbered-Distinct (suc i) sbs h,
)

Timely-Elem :
    (config : ElectionConfig) (sb : StoredBallot) (sbs : List StoredBallot)
    → Timely config sbs
    → Elem sb sbs
    → is_out_of_window config sb.submitted_at ≡ false
unfolding is_out_of_window is_voting_open
Timely-Elem config sb [] h m = absurd m
Timely-Elem config sb (x ∷ sbs) ((time, received, started, running), hs) (inl here) =
    ap (λ (b : StoredBallot). is_out_of_window config b.submitted_at) here
    ∙ rw received (ground arith)
Timely-Elem config sb (x ∷ sbs) (h, hs) (inr there) = Timely-Elem config sb sbs hs there

take_all : (sbs : List StoredBallot) → take (length sbs) (drop 0 sbs) ≡ sbs
take_all [] = refl
take_all (sb ∷ sbs) = ap (◌∷◌ sb) (take_all sbs)

get-stored :
    (d : DataLayer) (id : Bytes) (st : Stored) → lookup id d.elections ≡ some st → get d id ≡ ok st
unfolding get
get-stored d id st there = rw (there, get)

verdict-in_window :
    (v : Fallible BallotVerdict)
    → (v >>= λ verdict. ok (reason_of verdict)) ≢ ok (some out_of_window)
unfolding reason_of
verdict-in_window v = ground arith

module _ (keccak : Bytes → Bytes) (G1 G2 : PointLibrary) where
  validate_ballot-in_window :
      (sb : StoredBallot) (config : ElectionConfig) (mpk : G2.Point)
      → is_out_of_window config sb.submitted_at ≡ false
      → validate_ballot keccak G1 G2 sb config mpk ≢ ok (some out_of_window)
  unfolding validate_ballot
  validate_ballot-in_window sb config mpk h = ground (
    arith,
    verdict-in_window (
        verify_ballot_crypto keccak G1 G2 mpk sb.envelope.election_id sb.envelope.pseudonym
          sb.envelope.vk (ciphertext_bytes sb.envelope.ciphertexts) sb.envelope.zk_proof
          sb.envelope.voter_signature sb.envelope.attestation config.num_candidates config.budget),
  )

  -- After any accepted writes, the count and the list of the ballots are those of all stored ballots,
  -- their sequence numbers are different, and the admission never excludes one as outside the voting
  -- window.
  pub list_ballots-in_window :
      (lib : SignatureLibrary) (d : DataLayer)
      → Reach lib new_data_layer d
      → (id : Bytes) (st : Stored) → lookup id d.elections ≡ some st
      → (count_ballots d id ≡ ok (length st.ballots))
        × (list_ballots d id 0 (length st.ballots) ≡ ok st.ballots)
        × Distinct (map number st.ballots)
        × ((sb : StoredBallot) (mpk : G2.Point)
            → Elem sb st.ballots
            → validate_ballot keccak G1 G2 sb st.config mpk ≢ ok (some out_of_window))
  unfolding count_ballots list_ballots
  list_ballots-in_window lib d reach id st there =
      let (wf, _, _) = (Reach-IsSound lib d reach).each id st there in
      (
        rw (get-stored d id st there),
        rw (get-stored d id st there, take_all st.ballots),
        Numbered-Distinct 0 st.ballots wf.numbered,
        λ sb mpk m.
            validate_ballot-in_window sb st.config mpk
              (Timely-Elem st.config sb st.ballots wf.timely m),
      )
