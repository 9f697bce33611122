-- ===== src/Sales/Invariants.antt =====
-- Creating, editing and voiding a sale keep the books balanced and the stock reconciled.
pub mod Create
pub mod Edit
pub mod Both
