-- ===== src/Points.antt =====
-- crypto/points.py: point arithmetic over a group library, py_arkworks_bls12381, which is a
-- parameter; its instance for G1 and the one for G2 share one interface.
mod Library
mod Arithmetic
pub mod Laws
pub mod Codec
pub mod Scalars
unfoldable pub use Library.*
unfoldable pub use Arithmetic.*
