-- ===== src/Accounting/Books.antt =====
-- Sums of the ledger's debits and credits over any set of posting groups, and how the writers of
-- the ledger change them.
pub mod Sums
pub mod Writers
pub mod Posts
pub mod Lines
pub mod Documents
pub mod Once
