-- ===== src/Session.antt =====
-- The monad of the service functions, and the rules for the properties that they keep.
pub mod Outcome
pub mod Core
pub mod Keeps
pub mod Values
pub use Outcome.{Error, Result, ok, err}
unfoldable pub use Core.*
