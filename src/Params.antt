-- ===== src/Params.antt =====
-- crypto/params.py: the constants of the protocol and its small encodings.
mod Encodings
pub mod Factors
unfoldable pub use Encodings.*
use generalised_elgamal_voti.Shared.{ℕ, zero, suc, ◌<◌, ◌≡◌, refl, arith}
