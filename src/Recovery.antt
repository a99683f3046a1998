-- ===== src/Recovery.antt =====
-- crypto/recovery.py: Lagrange combination of decryption shares, and discrete logarithms by baby
-- steps and giant steps.
mod Defs
pub mod Lagrange
pub mod Table
pub mod Bsgs
unfoldable pub use Defs.*
