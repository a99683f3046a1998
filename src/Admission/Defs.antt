-- ===== src/Admission/Defs.antt =====
-- core/admission.py: its functions. The single-ballot check is `Fallible`, since the check of the proofs
-- and of the signature may raise.
use generalised_elgamal_voti.Shared.{
  ℕ, ◌+◌, Bool, false, not, ◌&&◌, ◌||◌, List, [], ◌∷◌, ◌++◌, ltb, leb, ◌==◌, if◌then◌else◌, Option,
  none, some, ok, Fallible, ◌>>=◌,
}
use generalised_elgamal_voti.Shared.Bytes.{Bytes}
use generalised_elgamal_voti.Shared.Keys.{same_list, number_key, bytes_key}
use generalised_elgamal_voti.Shared.Dict.{Dict, lookup, insert}
use generalised_elgamal_voti.Points.{PointLibrary, g2_from_compressed}
use generalised_elgamal_voti.Attestation.{verify_attestation}
use generalised_elgamal_voti.Ballot.{
  BallotVerdict, verified, malformed_ballot, bad_proof, bad_signature, bad_signature_pre_v2,
  verify_ballot_crypto,
}
use generalised_elgamal_voti.Config.{ElectionConfig, DuplicatePolicy, first_wins, last_wins}
use generalised_elgamal_voti.State.{is_voting_open}
use generalised_elgamal_voti.Envelopes.{
  ExclusionReason, invalid_proof, invalid_signature, invalid_attestation, duplicate_pseudonym,
  malformed, out_of_window, Ciphertext, BallotEnvelope, StoredBallot, Exclusion,
}

unfoldable pub reason_of : BallotVerdict → Option ExclusionReason
reason_of verified = none
reason_of malformed_ballot = some malformed
reason_of bad_proof = some invalid_proof
reason_of bad_signature = some invalid_signature
reason_of bad_signature_pre_v2 = some invalid_signature

-- `submitted_at is not None and not is_voting_open(config, submitted_at)`
unfoldable pub is_out_of_window : ElectionConfig → Option ℕ → Bool
is_out_of_window config none = false
is_out_of_window config (some time) = not (is_voting_open config time)

-- `[(ct.c1, ct.c2) for ct in env.ciphertexts]`
unfoldable pub ciphertext_bytes : List Ciphertext → List (Bytes × Bytes)
ciphertext_bytes [] = []
ciphertext_bytes (ct ∷ cts) = (ct.c1, ct.c2) ∷ ciphertext_bytes cts

module _ (keccak : Bytes → Bytes) (G1 G2 : PointLibrary) where
  unfoldable pub validate_ballot :
      StoredBallot → ElectionConfig → G2.Point → Fallible (Option ExclusionReason)
  unfolding reason_of is_out_of_window ciphertext_bytes
  validate_ballot sb config mpk =
      let env = sb.envelope in
      let att = env.attestation in
      if not (same_list env.election_id config.election_id)
      then ok (some malformed)
      else if is_out_of_window config sb.submitted_at
      then ok (some out_of_window)
      else if not (same_list att.election_id config.election_id)
          || not (same_list att.pseudonym env.pseudonym)
          || not (same_list att.vk env.vk)
      then ok (some invalid_attestation)
      else if not (verify_attestation keccak G1 config.eligibility_key att config.election_id)
      then ok (some invalid_attestation)
      else do
        verdict ←
            verify_ballot_crypto keccak G1 G2 mpk env.election_id env.pseudonym env.vk
              (ciphertext_bytes env.ciphertexts) env.zk_proof env.voter_signature att
              config.num_candidates config.budget
        ok (reason_of verdict)

unfoldable pub rank : StoredBallot → ℕ × ℕ
rank sb = (sb.envelope.attestation.nonce, sb.sequence_number)

-- `r < s` on pairs
unfoldable pub less : ℕ × ℕ → ℕ × ℕ → Bool
less (a, b) (c, d) = ltb a c || (a == c) && ltb b d

unfoldable pub beats : DuplicatePolicy → ℕ × ℕ → ℕ × ℕ → Bool
unfolding less
beats last_wins r current = less current r
beats first_wins r current = less r current

-- `winner_seq` and `winner_rank`
pub record Winners : Type 0 where
  pub winner_seq : Dict Bytes ℕ
  pub winner_rank : Dict Bytes (ℕ × ℕ)

unfoldable pub put_winner : StoredBallot → Winners → Winners
unfolding rank
put_winner sb w = record {
  winner_seq = insert sb.envelope.pseudonym sb.sequence_number w.winner_seq;
  winner_rank = insert sb.envelope.pseudonym (rank sb) w.winner_rank;
}

unfoldable pub consider : DuplicatePolicy → StoredBallot → Option (ℕ × ℕ) → Winners → Winners
unfolding put_winner beats
consider policy sb none w = put_winner sb w
consider policy sb (some current) w = if beats policy (rank sb) current then put_winner sb w else w

unfoldable pub winners_from : DuplicatePolicy → Winners → List StoredBallot → Winners
unfolding consider
winners_from policy w [] = w
winners_from policy w (sb ∷ sbs) =
    winners_from policy (consider policy sb (lookup sb.envelope.pseudonym w.winner_rank) w) sbs

unfoldable pub is_value : ℕ → Dict Bytes ℕ → Bool
is_value n [] = false
is_value n ((_, m) ∷ d) = (n == m) || is_value n d

unfoldable pub no_winners : Winners
no_winners = record { winner_seq = []; winner_rank = [] }

-- Whether `_duplicate_losers(valid, policy)` has the sequence number of `sb`, a ballot of `valid`.
unfoldable pub is_loser : DuplicatePolicy → List StoredBallot → StoredBallot → Bool
unfolding is_value winners_from no_winners
is_loser policy valid sb =
    not (is_value sb.sequence_number (winners_from policy no_winners valid).winner_seq)

pub record AdmittedBallot : Type 0 where
  pub sequence_number : ℕ
  pub envelope : BallotEnvelope
  pub weight : ℕ

pub record AdmissionResult : Type 0 where
  pub admitted : List AdmittedBallot
  pub exclusions : List Exclusion
  pub total_admitted_weight : ℕ

-- `exclusions.sort(key=...)`, which keeps the order of equal keys.
unfoldable pub place_exclusion : Exclusion → List Exclusion → List Exclusion
place_exclusion e [] = e ∷ []
place_exclusion e (f ∷ fs) =
    if leb e.sequence_number f.sequence_number then e ∷ f ∷ fs else f ∷ place_exclusion e fs

unfoldable pub sort_exclusions : List Exclusion → List Exclusion
unfolding place_exclusion
sort_exclusions [] = []
sort_exclusions (e ∷ es) = place_exclusion e (sort_exclusions es)

unfoldable pub total_weight : List AdmittedBallot → ℕ
total_weight [] = 0
total_weight (a ∷ rest) = a.weight + total_weight rest

unfoldable pub admitted_ballot : StoredBallot → AdmittedBallot
admitted_ballot sb = record {
  sequence_number = sb.sequence_number;
  envelope = sb.envelope;
  weight = sb.envelope.attestation.weight;
}

module _ (validate : StoredBallot → Option ExclusionReason) where
  -- The first loop: the valid ballots, and the exclusions of the others.
  unfoldable pub valid_ballots : List StoredBallot → List StoredBallot
  valid_ballots [] = []
  valid_ballots (sb ∷ sbs) =
      let rest = valid_ballots sbs in elim (validate sb) [ none ↦ sb ∷ rest | some _ ↦ rest ]

  unfoldable pub invalid_ballots : List StoredBallot → List Exclusion
  invalid_ballots [] = []
  invalid_ballots (sb ∷ sbs) =
      let rest = invalid_ballots sbs in
      elim (validate sb) [
        | none ↦ rest
        | some reason ↦ record { sequence_number = sb.sequence_number; reason = reason } ∷ rest
      ]

module _ (loses : StoredBallot → Bool) where
  -- The second loop: the admitted ballots, and the exclusions of the losers.
  unfoldable pub winning_ballots : List StoredBallot → List AdmittedBallot
  unfolding admitted_ballot
  winning_ballots [] = []
  winning_ballots (sb ∷ sbs) =
      let rest = winning_ballots sbs in if loses sb then rest else admitted_ballot sb ∷ rest

  unfoldable pub losing_ballots : List StoredBallot → List Exclusion
  losing_ballots [] = []
  losing_ballots (sb ∷ sbs) =
      let rest = losing_ballots sbs in
      if loses sb
      then record { sequence_number = sb.sequence_number; reason = duplicate_pseudonym } ∷ rest
      else rest

-- What `admit` does with the two lists of its first loop.
unfoldable pub conclude : DuplicatePolicy → List StoredBallot → List Exclusion → AdmissionResult
unfolding winning_ballots losing_ballots is_loser sort_exclusions total_weight
conclude policy valid invalid =
    let admitted = winning_ballots (is_loser policy valid) valid in
    record {
      admitted = admitted;
      exclusions = sort_exclusions (invalid ++ losing_ballots (is_loser policy valid) valid);
      total_admitted_weight = total_weight admitted;
    }

-- The admission where the check of every ballot has an answer.
unfoldable pub admission :
    (StoredBallot → Option ExclusionReason) → DuplicatePolicy → List StoredBallot → AdmissionResult
unfolding valid_ballots invalid_ballots conclude
admission validate policy ballots =
    conclude policy (valid_ballots validate ballots) (invalid_ballots validate ballots)

-- The first loop of `admit`, which raises where the check of a ballot does.
unfoldable pub screen :
    (StoredBallot → Fallible (Option ExclusionReason))
    → List StoredBallot
    → Fallible (List StoredBallot × List Exclusion)
screen validate [] = ok ([], [])
screen validate (sb ∷ sbs) = do
  answer ← validate sb
  (valid, invalid) ← screen validate sbs
  elim answer [
    | none ↦ ok (sb ∷ valid, invalid)
    | some reason ↦
        ok (valid, record { sequence_number = sb.sequence_number; reason = reason } ∷ invalid)
  ]

module _ (keccak : Bytes → Bytes) (G1 G2 : PointLibrary) where
  unfoldable pub admit :
      (ballots : List StoredBallot) (config : ElectionConfig) (mpk_bytes : Bytes)
      → Fallible AdmissionResult
  unfolding screen conclude validate_ballot
  admit ballots config mpk_bytes = do
    mpk ← g2_from_compressed G2 mpk_bytes
    (valid, invalid) ← screen (λ sb. validate_ballot keccak G1 G2 sb config mpk) ballots
    ok (conclude config.duplicate_policy valid invalid)
