-- ===== src/Purchases.antt =====
-- backend/app/services/purchases.py
pub mod Lines
pub mod Create
pub mod Created
pub mod Void
pub mod Edit
pub mod EditKeeps
pub mod Keeps
pub mod Stock
