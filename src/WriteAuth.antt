-- ===== src/WriteAuth.antt =====
-- core/write_auth.py and core/authz.py: what the writers sign, and the checks of their signatures.
mod Library
mod Digests
mod Requests
pub mod Framing
unfoldable pub use Library.*
unfoldable pub use Digests.*
unfoldable pub use Requests.*
