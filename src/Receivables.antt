-- ===== src/Receivables.antt =====
-- backend/app/services/receivables.py
pub mod Balance
pub mod Statement
pub mod Closing
pub mod Outstanding
pub mod Settle
pub mod Writes
pub mod Settled
