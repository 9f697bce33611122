-- ===== src/Khata.antt =====
-- What backend/app/services/receivables.py and backend/app/services/payables.py share: the
-- aggregates of their queries, and the statement with its running balances.
pub mod Sums
pub mod Entries
pub mod Order
pub mod Owners
