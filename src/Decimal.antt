-- ===== src/Decimal.antt =====
-- Python's `decimal.Decimal`, as far as the services use it.
pub mod Defs
pub mod Division
pub mod Rounding
unfoldable pub use Defs.*
