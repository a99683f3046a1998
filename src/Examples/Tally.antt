-- ===== src/Examples/Tally.antt =====
-- The aggregate of two ballots, and the check of a result, over the group of scalars.
use generalised_elgamal_voti.Shared.{
  ℕ, ◌≡◌, ap, refl, arith, true, false, List, [], ◌∷◌, replicate, ok, some, none,
}
use generalised_elgamal_voti.Shared.Bytes.{Bytes, big_endian}
use generalised_elgamal_voti.Shared.Bytes
use generalised_elgamal_voti.Shared.Int.{pos}
use generalised_elgamal_voti.Params
use generalised_elgamal_voti.Points
use generalised_elgamal_voti.Recovery
use generalised_elgamal_voti.Modular.Inverse
use generalised_elgamal_voti.Proofs
use generalised_elgamal_voti.Transcript
use generalised_elgamal_voti.Transcript.{Transcript, new_transcript}
use generalised_elgamal_voti.Proofs.{make_decrypt_transcript, verify_decryption_share, encode_dleq}
use generalised_elgamal_voti.Aggregation
use generalised_elgamal_voti.Config.{exact, variant_a, last_wins, ElectionConfig}
use generalised_elgamal_voti.Recovery.{combine_shares}
use generalised_elgamal_voti.Proofs.Shares.{decode_dleq-encode_dleq}
use generalised_elgamal_voti.Aggregation.{
  accepted, valid_shares, taus_from, check_result, recover_result, bsgs_bound,
}
use generalised_elgamal_voti.Aggregation.Taus.{Opens}
use generalised_elgamal_voti.Aggregation.Checked.{published, check_result-recover_result}
use generalised_elgamal_voti.Params.{curve_order}
use generalised_elgamal_voti.Points.{
  PointLibrary, IsPrimeOrderGroup, HasCodec, mul, add, g2_from_compressed,
}
use generalised_elgamal_voti.Points.Codec.{from_compressed-bytes}
use generalised_elgamal_voti.Points.Scalars.{scalar_library, scalar_path, scalar_laws, scalar_codec}
use generalised_elgamal_voti.Elgamal.{encrypt}
use generalised_elgamal_voti.Elgamal
use generalised_elgamal_voti.Elgamal.Homomorphism.{AllEncrypt, encrypt-Encrypts}
use generalised_elgamal_voti.Envelopes.{Ciphertext, DecryptionShareEnvelope, AggregateArtifact}
use generalised_elgamal_voti.Admission.{AdmittedBallot}
use generalised_elgamal_voti.Aggregation.{decode_ciphertext, aggregate_points}
use generalised_elgamal_voti.Aggregation.Weighted.{tally, ballots_of, aggregate_points-AllEncrypt}

abbrev G2 : PointLibrary
G2 = scalar_library 96

abbrev laws : IsPrimeOrderGroup G2
laws = scalar_laws 96

codec : HasCodec G2 96
unfolding curve_order
codec = scalar_codec 96 (omega arith)

abbrev key : G2.Point
key = mul G2 G2.generator 7

abbrev points : ℕ → Elgamal.Ciphertext G2
points vote = let (c1, c2, _) = encrypt G2 key vote 4 in (c1, c2)

abbrev encoded : ℕ → Ciphertext
encoded vote = record {
  c1 = G2.to_compressed_bytes (points vote).0;
  c2 = G2.to_compressed_bytes (points vote).1;
}

decoded : (vote : ℕ) → decode_ciphertext G2 (encoded vote) ≡ ok (points vote)
unfolding decode_ciphertext g2_from_compressed
decoded vote = rw (
  from_compressed-bytes G2 96 codec (points vote).0,
  from_compressed-bytes G2 96 codec (points vote).1,
)

abbrev ballot : (sequence_number vote weight : ℕ) → AdmittedBallot
ballot sequence_number vote weight = record {
  sequence_number = sequence_number;
  envelope = record {
    election_id = [];
    pseudonym = [];
    vk = [];
    ciphertexts = encoded vote ∷ [];
    zk_proof = [];
    voter_signature = [];
    attestation = record {
      election_id = [];
      pseudonym = [];
      vk = [];
      weight = weight;
      signature = [];
      nonce = 1;
    };
  };
  weight = weight;
}

abbrev cast : List (AdmittedBallot × List ℕ)
cast = (ballot 0 3 50, 3 ∷ []) ∷ (ballot 1 2 14, 2 ∷ []) ∷ []

-- With a scale of 10, the weights 50 and 14 count 5 and 1.
total_votes : tally 10 (0 ∷ []) cast ≡ 17 ∷ []
unfolding tally generalised_elgamal_voti.Aggregation.Weighted.add_votes
    generalised_elgamal_voti.Aggregation.Weighted.half_up
total_votes = refl

aggregate_points-AllEncrypt_example :
    (r : List (Elgamal.Ciphertext G2)) × (aggregate_points G2 (ballots_of cast) 1 10 ≡ ok r)
    × AllEncrypt G2 key (tally 10 (0 ∷ []) cast) r
aggregate_points-AllEncrypt_example =
    aggregate_points-AllEncrypt G2 laws key 1 10 cast (omega arith) (
      refl,
      ((points 3, decoded 3, encrypt-Encrypts G2 laws key 3 4), tt),
      (refl, ((points 2, decoded 2, encrypt-Encrypts G2 laws key 2 4), tt), tt),
    )

-- The second part of an encryption of 3 with the randomness 4 under the key of the one keyper, whose secret is 5.
abbrev config : ElectionConfig
config = record {
  election_id = replicate 32 0;
  num_candidates = 1;
  budget = 3;
  mode = exact;
  variant = variant_a;
  weighted = false;
  duplicate_policy = last_wins;
  voting_start = 100;
  voting_end = 200;
  threshold = record { t = 1; n = 1 };
  keypers = record { signing_key = 1 ∷ []; url = [] } ∷ [];
  eligibility_key = [];
  result_publisher_key = [];
  gateway_keys = [];
  admin_key = [];
  protocol_version = [];
  scale = 1;
  self_submit_fee_wei = pos 0;
}

-- The ciphertext, the public share of the keyper and its decryption share.
abbrev c1 : G2.Point
c1 = mul G2 G2.generator 4

abbrev c2 : G2.Point
c2 = mul G2 G2.generator 23

abbrev mpk_k : G2.Point
mpk_k = mul G2 G2.generator 5

abbrev sigma : G2.Point
sigma = mul G2 G2.generator 20

abbrev one_ballot : AggregateArtifact
one_ballot = record {
  election_id = config.election_id;
  aggregates = record { c1 = G2.to_compressed_bytes c1; c2 = G2.to_compressed_bytes c2 } ∷ [];
  admitted = 0 ∷ [];
  exclusions = [];
  total_admitted_weight = 1;
  total_scaled_weight = 1;
}

-- The hash is a constant here, so that the proof of the share is two zeroes.
abbrev share : DecryptionShareEnvelope
share = record {
  election_id = config.election_id;
  keyper_index = 1;
  entries = record { sigma = G2.to_compressed_bytes sigma; proof = encode_dleq 0 0 } ∷ [];
}

abbrev hash : Bytes → Bytes
hash bs = []

abbrev keypers : List Bytes
keypers = G2.to_compressed_bytes mpk_k ∷ []

abbrev bound_to : Transcript
bound_to = new_transcript []

statement :
    (t : Transcript) × (make_decrypt_transcript config.election_id 0 ≡ ok t)
    × (verify_decryption_share hash G2 t c1 c2 mpk_k sigma 0 0 1 ≡ ok true)
unfolding make_decrypt_transcript verify_decryption_share Proofs.bind_decryption_share
    Proofs.verify_dleq Proofs.dleq_challenge Proofs.negate Proofs.bind_statement_dleq
    Transcript.append Transcript.new_transcript Params.u32be Params.u16be Params.to_bytes big_endian
    Transcript.append_point Points.g2_to_compressed Points.to_compressed Transcript.challenge
    Transcript.wide_hash Transcript.hash_to_scalar Params.wide_reduce Bytes.from_bytes
    Bytes.read_digits Transcript.preimage Transcript.join Params.scalar_to_bytes curve_order
statement = (_, refl, refl)

point_decoded : (P : G2.Point) → g2_from_compressed G2 (G2.to_compressed_bytes P) ≡ ok P
unfolding g2_from_compressed
point_decoded P = from_compressed-bytes G2 96 codec P

share_valid : valid_shares G2 hash config keypers 1 0 c1 c2 (share ∷ []) ≡ ok ((1, sigma) ∷ [])
unfolding valid_shares Aggregation.valid_share Aggregation.skip_value_error Aggregation.at_index
    curve_order
share_valid =
    let (t, made, verified) = statement in
    rw (point_decoded sigma, decode_dleq-encode_dleq 0 0, point_decoded mpk_k, made, verified)

combined : combine_shares G2 ((1, sigma) ∷ []) ≡ ok sigma
unfolding combine_shares Recovery.combine_from Recovery.lagrange_coefficient Recovery.lagrange_terms
    Inverse.mod_inverse Inverse.inverse_loop Recovery.or_value_error curve_order mul add
combined = ap ok (scalar_path _ _ refl)

result_checked :
    check_result G2 hash config keypers 1 one_ballot (share ∷ []) (3 ∷ []) ≡ ok accepted
unfolding check_result Aggregation.derive_taus taus_from Aggregation.check_sum
    Aggregation.sum_totals bsgs_bound mul add Points.neg curve_order
    native.Mathlib.Decide.ℕ_discrete
result_checked = rw (point_decoded c1, point_decoded c2, share_valid, combined) refl

check_result-recover_result_example :
    (indices : List ℕ) × Opens G2 hash config keypers 1 one_ballot.aggregates (share ∷ []) indices
    × (recover_result G2 hash config keypers 1 one_ballot (share ∷ []) none
        ≡ ok (some (published config one_ballot (3 ∷ []) indices)))
unfolding bsgs_bound curve_order
check_result-recover_result_example =
    check_result-recover_result G2 laws codec hash config keypers 1 one_ballot (share ∷ []) (3 ∷ [])
      (omega arith) result_checked
