-- ===== src/Payments.antt =====
-- backend/app/api/payments.py, and what recording and voiding a payment keep.
pub mod Void
pub mod Keeps
