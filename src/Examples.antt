-- ===== src/Examples.antt =====
-- Tests of the definitions, and the theorems at concrete inputs.
mod Crypto
mod Elections
mod Credentials
mod Proofs
mod Tally
mod Ballots
mod Layers
