-- ===== src/Expenses.antt =====
-- backend/app/services/expenses.py
pub mod Defs
pub mod Keeps
