-- ===== src/Recovery/Lagrange.antt =====
-- crypto/recovery.py: what `lagrange_coefficient` computes, and interpolation at 0.
mod Basis
mod Interpolate
mod Combine
pub use Basis.*
pub use Interpolate.*
pub use Combine.*
