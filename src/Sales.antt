-- ===== src/Sales.antt =====
-- backend/app/services/sales.py
pub mod InvoiceNumber
pub mod Lines
pub mod Numbering
pub mod LineTotals
pub mod Header
pub mod Create
pub mod Created
pub mod Edit
pub mod Edited
pub mod Invariants
pub mod Stock
pub mod Rows
