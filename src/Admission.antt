-- ===== src/Admission.antt =====
-- core/admission.py: which ballots the tally counts.
mod Defs
pub mod Ranks
pub mod Winners
pub mod Decisions
pub mod Partition
pub mod Honest
pub mod Screening
unfoldable pub use Defs.*
