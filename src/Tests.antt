-- ===== src/Tests.antt =====
-- Concrete runs of the services, and each theorem at one of them.
pub mod Evaluation
pub mod Shop
pub mod Histories
mod Postings
mod Totals
mod Stock
mod Numbers
mod Purchases
mod Accounts
mod Edits
mod Shortages
mod Returns
mod Khata
mod Ledger
mod Openings
