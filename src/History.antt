-- ===== src/History.antt =====
-- Histories of committed transactions, and what holds of every database that they reach.
pub mod Steps
pub mod Reached
pub mod TrialBalance
