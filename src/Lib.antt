-- ===== src/Lib.antt =====
-- The Python core of the Shutter governance protocol: threshold ElGamal voting with a committee of
-- keypers. Dealers run Feldman key generation, voters cast ballots under credentials that an
-- eligibility service signs, the data layer stores what keypers, gateways and voters submit under
-- signatures, every keyper admits the same ballots, the committee agrees on artifacts by a quorum, and
-- a quorum of decryption shares opens the homomorphic tally.
--
-- Paths are below src/shutter_governance_protocol/ in the repository.
--
-- Shared           natural numbers and their Boolean tests, lists, results and exceptions, Python's
--                  integers with floor modulo, dictionaries in insertion order, byte strings and the
--                  fields that are read back from them
-- Modular          congruences, modular inverses, polynomial functions and their roots
-- Params           crypto/params.py
-- Points           crypto/points.py; Points/Library is what it takes from py_arkworks_bls12381, and
--                  Points/Scalars an instance of that interface by the scalars themselves
-- Elgamal          crypto/elgamal.py
-- Recovery         crypto/recovery.py
-- Dkg              crypto/dkg.py; Ceremony takes the two rounds of run_dkg_once from
--                  services/coordinator/dkg_coordinator.py
-- Transcript       crypto/transcript.py
-- Schnorr          crypto/schnorr.py
-- Proofs           crypto/proofs.py: equal discrete logarithms, decryption shares, budgets (Defs) and
--                  the OR proof with the budget of the mode atMost (Branches)
-- Ballot           crypto/ballot.py: the proof codec (Codec), the signed message (Messages), building
--                  and checking (Defs)
-- Attestation      crypto/attestation.py and verify_attestation of ports/eligibility.py
-- Config, State    core/config.py and core/state.py
-- Quorum           core/quorum.py, and the grouping of submissions in adapters/memory.py
-- Envelopes        envelopes/types.py, and the finalized key of ports/data_layer.py
-- Admission        core/admission.py
-- Aggregation      core/aggregation.py: the weighted aggregate (Defs), its artifact, the recovery and
--                  the check of results (Result)
-- WriteAuth        core/write_auth.py (Digests) and core/authz.py (Requests)
-- DataLayer        adapters/memory.py: the stored election (Defs), the guards and the effect of every
--                  write on it (Writes), the whole layer (Layer). Changes says what a write may do to
--                  an election, Reach makes accepted writes the steps of a relation
-- Examples         tests, and the theorems at concrete inputs
--
-- Functions keep the names of the source. A function that may raise returns a Result; a method that
-- changes its object returns the new record, and one that raises changes nothing. Random values
-- (polynomial coefficients, nonces, encryption randomness) and the times of the clock are arguments.
--
-- Parameters. The curve library is a record of operations (Points/Library) with the laws of a group of
-- prime order and of a codec that reads back what it writes; keccak is any function on byte strings.
-- The signatures of writes, the ABI encoding and the canonical JSON are a record too (WriteAuth/Library),
-- of which nothing is assumed; the JSON stands for envelopes/codecs.py as well. That a keyper has a share
-- from every dealer before round 2, which round2 does not check, is a hypothesis (Dkg/Decryption).
--
-- Bounds and fuel. No function needs fuel except the extended Euclidean loop of the modular inverse and
-- the giant steps, whose fuel is the modulus and the size of the table; the theorems on Lagrange
-- coefficients and on discrete logarithms say that they return. Committee indices are below 2^16, as
-- u16be encodes them, which makes their differences invertible. Tags and lengths of the transcript are
-- written in 4 bytes, which bounds the candidates of an OR proof and the bytes of a ballot's proof.
-- Counts of the configuration are natural numbers, since a negative one is refused by the same guard as
-- 0; the times of the voting window are natural numbers, as they count seconds since 1970, although no
-- guard refuses a negative one; the fee is an integer.
--
-- Not modelled: the lock of the data layer and its reads of the configuration (get_election,
-- list_elections), the SQL and chain adapters, JSON codecs, the services but for those two rounds,
-- the contracts and the user interfaces.
pub mod Admission
pub mod Aggregation
pub mod Attestation
pub mod Ballot
pub mod Config
pub mod DataLayer
pub mod Dkg
pub mod Elgamal
pub mod Envelopes
pub mod Examples
pub mod Modular
pub mod Params
pub mod Points
pub mod Proofs
pub mod Quorum
pub mod Recovery
pub mod Schnorr
pub mod Shared
pub mod State
pub mod Transcript
pub mod WriteAuth
