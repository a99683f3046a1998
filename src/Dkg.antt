-- ===== src/Dkg.antt =====
-- crypto/dkg.py: Feldman's verifiable secret sharing over G2. A keyper's state machine is a record;
-- the methods return the new state beside their result.
mod Defs
pub mod Feldman
pub mod Keys
pub mod Received
pub mod Round2
pub mod Ceremony
pub mod Decryption
pub mod Threshold
unfoldable pub use Defs.*
