-- ===== src/Payables.antt =====
-- backend/app/services/payables.py
pub mod Balance
pub mod Statement
pub mod Settle
pub mod Closing
