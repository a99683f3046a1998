-- ===== src/Aggregation.antt =====
-- core/aggregation.py: the weighted homomorphic aggregate.
mod Defs
mod Result
pub mod Weighted
pub mod Taus
pub mod Checked
unfoldable pub use Defs.*
unfoldable pub use Result.*
