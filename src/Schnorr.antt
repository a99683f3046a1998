-- ===== src/Schnorr.antt =====
-- crypto/schnorr.py: Schnorr signatures over G1.
mod Defs
pub mod Correctness
unfoldable pub use Defs.*
