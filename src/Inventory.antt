-- ===== src/Inventory.antt =====
-- backend/app/services/inventory.py, the only writer of the stock levels.
pub mod Defs
pub mod Rows
pub mod Reconciled
pub mod Adjusted
pub mod Frame
pub mod Levels
pub mod Shortage
unfoldable pub use Defs.*
