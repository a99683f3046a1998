-- ===== src/Elgamal.antt =====
-- crypto/elgamal.py: exponential ElGamal in G2. The randomness is an argument, as in the source's
-- deterministic calls; `random_scalar` draws it otherwise.
mod Defs
pub mod Homomorphism
unfoldable pub use Defs.*
