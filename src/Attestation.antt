-- ===== src/Attestation.antt =====
-- crypto/attestation.py and ports/eligibility.py: the eligibility credential.
mod Defs
pub mod Verification
pub mod Weights
unfoldable pub use Defs.*
