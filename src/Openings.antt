-- ===== src/Openings.antt =====
-- backend/app/services/opening_inventory.py
pub mod Lines
pub mod Text
pub mod Post
pub mod Keeps
pub mod Retry
