-- ===== src/Accounting.antt =====
-- backend/app/services/accounting.py: the general ledger.
pub mod Chart
pub mod Group
pub mod Posts
pub mod Books
pub mod Frame
pub mod FramePosts
pub mod System
pub mod Reads
pub mod LedgerClosing
pub mod TrialBalance
