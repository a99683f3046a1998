-- ===== src/DataLayer.antt =====
-- adapters/memory.py: the reference data layer.
mod Defs
mod Writes
mod Layer
pub mod Changes
pub mod Committee
pub mod Invariant
pub mod Extension
pub mod Written
pub mod Reach
pub mod Tally
unfoldable pub use Defs.*
unfoldable pub use Writes.*
unfoldable pub use Layer.*
