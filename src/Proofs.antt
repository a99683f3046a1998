-- ===== src/Proofs.antt =====
-- crypto/proofs.py: the sigma proofs.
mod Defs
mod Branches
pub mod Dleq
pub mod Plaintext
pub mod Or
pub mod Completeness
pub mod Shares
pub mod Budget
unfoldable pub use Defs.*
unfoldable pub use Branches.*
