-- ===== src/Tables/Rows.antt =====
-- The rows of the tables of backend/app/models that the services read and write. Money is in
-- cents, a quantity in thousandths, an average cost in ten-thousandths, as the NUMERIC columns are.
use kapra_os.Prelude.{ℕ, String, Bool, Option, List, ℤ}

-- A text that the services look into, as its code points.
abbrev pub Text : Type 0
Text = List ℕ

pub data AccountType : Type 0 where
  asset liability equity revenue expense : AccountType

pub data PaymentMethod : Type 0 where
  cash card bank jazzcash easypaisa other : PaymentMethod

pub data SaleStatus : Type 0 where
  completed partial cancelled returned : SaleStatus

pub data ExpenseCategory : Type 0 where
  rent salary utilities transport marketing maintenance supplies other : ExpenseCategory

pub data InventoryMovementType : Type 0 where
  purchase sale customer_return supplier_return damage adjustment opening : InventoryMovementType

-- The values of `reference_type` in the ledger and in the stock movements.
pub data Reference : Type 0 where
  sale sale_cogs sale_return purchase purchase_return customer_payment : Reference
  supplier_payment expense opening_inventory sale_edit sale_void : Reference
  purchase_edit purchase_void adjustment opening : Reference

pub record Account : Type 0 where
  pub id : ℕ
  pub shop_id : ℕ
  pub code : ℕ
  pub name : String
  pub account_type : AccountType
  pub is_system : Bool

pub record LedgerEntry : Type 0 where
  pub id : ℕ
  pub shop_id : ℕ
  pub account_id : ℕ
  pub debit : ℤ
  pub credit : ℤ
  pub reference_type : Reference
  pub reference_id : ℕ
  pub description : Option String
  pub created_at : ℕ

-- A row that belongs to a shop: a product variant, a customer, a supplier.
pub record Owned : Type 0 where
  pub id : ℕ
  pub shop_id : ℕ

pub record Inventory : Type 0 where
  pub variant_id : ℕ
  pub quantity : ℤ
  pub reserved_quantity : ℤ
  pub weighted_average_cost : ℤ

pub record InventoryMovement : Type 0 where
  pub shop_id : ℕ
  pub variant_id : ℕ
  pub movement_type : InventoryMovementType
  pub quantity : ℤ
  pub unit_cost : Option ℤ
  pub reference_type : Option Reference
  pub reference_id : Option ℕ
  pub notes : Option String

pub record SaleItem : Type 0 where
  pub id : ℕ
  pub variant_id : ℕ
  pub quantity : ℤ
  pub unit_price : ℤ
  pub cost_price : ℤ
  pub discount : ℤ
  pub total : ℤ

-- `items` are the sale's rows of `sale_items`.
pub record Sale : Type 0 where
  pub id : ℕ
  pub shop_id : ℕ
  pub customer_id : Option ℕ
  pub created_by_user_id : Option ℕ
  pub invoice_number : Option Text
  pub subtotal : ℤ
  pub discount : ℤ
  pub total : ℤ
  pub paid_amount : ℤ
  pub status : SaleStatus
  pub created_at : ℕ
  pub items : List SaleItem

pub record Payment : Type 0 where
  pub id : ℕ
  pub shop_id : ℕ
  pub customer_id : Option ℕ
  pub supplier_id : Option ℕ
  pub sale_id : Option ℕ
  pub purchase_id : Option ℕ
  pub amount : ℤ
  pub method : PaymentMethod
  pub reference : Option String
  pub created_at : ℕ

pub record PurchaseItem : Type 0 where
  pub id : ℕ
  pub variant_id : ℕ
  pub quantity : ℤ
  pub unit_cost : ℤ
  pub total : ℤ

pub record Purchase : Type 0 where
  pub id : ℕ
  pub shop_id : ℕ
  pub supplier_id : ℕ
  pub invoice_number : Option Text
  pub subtotal : ℤ
  pub discount : ℤ
  pub total : ℤ
  pub paid_amount : ℤ
  pub created_at : ℕ
  pub items : List PurchaseItem

pub record Expense : Type 0 where
  pub id : ℕ
  pub shop_id : ℕ
  pub category : ExpenseCategory
  pub amount : ℤ
  pub payment_method : PaymentMethod
  pub description : Option String
  pub expense_date : ℕ

pub record SaleReturnItem : Type 0 where
  pub id : ℕ
  pub sale_item_id : ℕ
  pub variant_id : ℕ
  pub quantity : ℤ
  pub unit_price : ℤ
  pub cost_price : ℤ
  pub discount : ℤ
  pub total : ℤ

-- `items` are the return's rows of `sale_return_items`.
pub record SaleReturn : Type 0 where
  pub id : ℕ
  pub shop_id : ℕ
  pub sale_id : ℕ
  pub customer_id : Option ℕ
  pub total_amount : ℤ
  pub ar_amount : ℤ
  pub cash_refund : ℤ
  pub cogs_amount : ℤ
  pub notes : Option String
  pub created_at : ℕ
  pub items : List SaleReturnItem

pub record PurchaseReturnItem : Type 0 where
  pub id : ℕ
  pub purchase_item_id : ℕ
  pub variant_id : ℕ
  pub quantity : ℤ
  pub unit_cost : ℤ
  pub discount : ℤ
  pub total : ℤ

pub record PurchaseReturn : Type 0 where
  pub id : ℕ
  pub shop_id : ℕ
  pub purchase_id : ℕ
  pub supplier_id : ℕ
  pub total_amount : ℤ
  pub notes : Option String
  pub created_at : ℕ
  pub items : List PurchaseReturnItem

pub data OpeningInventorySource : Type 0 where
  manual import : OpeningInventorySource

pub data OpeningInventoryCostStatus : Type 0 where
  known estimated : OpeningInventoryCostStatus

pub record OpeningInventoryEntry : Type 0 where
  pub variant_id : ℕ
  pub quantity : ℤ
  pub cost_status : OpeningInventoryCostStatus
  pub unit_cost : ℤ
  pub value : ℤ

-- `entries` are the batch's rows of `opening_inventory_entries`.
pub record OpeningInventoryBatch : Type 0 where
  pub id : ℕ
  pub shop_id : ℕ
  pub idempotency_key : Text
  pub source : OpeningInventorySource
  pub notes : Option Text
  pub entry_count : ℕ
  pub estimated_entry_count : ℕ
  pub total_value : ℤ
  pub created_by_user_id : Option ℕ
  pub entries : List OpeningInventoryEntry
