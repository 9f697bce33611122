-- ===== src/Returns.antt =====
-- backend/app/services/returns.py
pub mod Lines
pub mod SaleLines
pub mod Quantities
pub mod OfSale
pub mod Limit
pub mod PurchaseLines
pub mod OfPurchase
pub mod Keeps
pub mod Stock
pub mod Sent
