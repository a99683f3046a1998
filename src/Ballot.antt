-- ===== src/Ballot.antt =====
-- crypto/ballot.py: ballots, their validity proofs, and the check of both.
mod Codec
mod Messages
mod Defs
pub mod Reading
pub mod RoundTrip
pub mod Honest
pub mod Ranges
pub mod Signed
pub mod Building
pub mod Completeness
pub mod Framing
unfoldable pub use Codec.*
unfoldable pub use Messages.*
unfoldable pub use Defs.*
