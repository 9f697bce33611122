-- ===== src/History/Steps.antt =====
-- What the committed transactions of the services do to the database, one after another. The row
-- locks that the services take make concurrent transactions on one document or one variant wait, so
-- a history of commits is a sequence. A transaction that raises is rolled back and is no step.
use kapra_os.Prelude.{ℕ, ◌≡◌, []}
use kapra_os.Tables.{
  OpeningInventoryBatch, Db, Sale, Purchase, Expense, Payment, SaleReturn, PurchaseReturn,
  InventoryMovement,
}
use kapra_os.Session.{ok}
use kapra_os.Inventory.{Change, Adjustment, add_stock, remove_stock, adjust_stock}
use kapra_os.Inventory.Adjusted.{IsNegativeTie}
use kapra_os.Sales.Create.{SaleRequest, create_sale}
use kapra_os.Sales.Edit.{SaleUpdate, update_sale, delete_sale}
use kapra_os.Purchases.Create.{PurchaseRequest, create_purchase}
use kapra_os.Purchases.Edit.{PurchaseUpdate, update_purchase}
use kapra_os.Expenses.Defs.{
  ExpenseRequest, ExpenseUpdate, create_expense, update_expense, delete_expense,
}
use kapra_os.Returns.OfSale.{ReturnRequest, create_sale_return}
use kapra_os.Returns.OfPurchase.{create_purchase_return}
use kapra_os.Purchases.Void.{delete_purchase}
use kapra_os.Receivables.Settle.{PaymentRequest, record_customer_payment}
use kapra_os.Payables.Settle.{record_supplier_payment}
use kapra_os.Payments.Void.{void_payment}
use kapra_os.Openings.Post.{OpeningRequest, post_opening_inventory}

-- One commit from `s` to `t`. `elsewhere` is a transaction of another service, which writes no
-- stock, no account and no ledger row.
pub data Step (s t : Db) : Type 0 where
  sale_created : (r : SaleRequest) {x : Sale} → create_sale r s ≡ ok (x, t) → Step s t
  sale_updated :
      (shop_id sale_id : ℕ) (u : SaleUpdate) {x : Sale}
      → update_sale shop_id sale_id u s ≡ ok (x, t)
      → Step s t
  sale_deleted : (shop_id sale_id : ℕ) → delete_sale shop_id sale_id s ≡ ok (tt, t) → Step s t
  purchase_created :
      (r : PurchaseRequest) {x : Purchase} → create_purchase r s ≡ ok (x, t) → Step s t
  purchase_updated :
      (shop_id purchase_id : ℕ) (u : PurchaseUpdate) {x : Purchase}
      → update_purchase shop_id purchase_id u s ≡ ok (x, t)
      → Step s t
  purchase_deleted :
      (shop_id purchase_id : ℕ) → delete_purchase shop_id purchase_id s ≡ ok (tt, t) → Step s t
  expense_created : (r : ExpenseRequest) {x : Expense} → create_expense r s ≡ ok (x, t) → Step s t
  expense_updated :
      (shop_id id : ℕ) (u : ExpenseUpdate) {x : Expense}
      → update_expense shop_id id u s ≡ ok (x, t)
      → Step s t
  expense_deleted : (shop_id id : ℕ) → delete_expense shop_id id s ≡ ok (tt, t) → Step s t
  sale_returned :
      (r : ReturnRequest) {x : SaleReturn} → create_sale_return r s ≡ ok (x, t) → Step s t
  purchase_returned :
      (r : ReturnRequest) {x : PurchaseReturn} → create_purchase_return r s ≡ ok (x, t) → Step s t
  customer_paid :
      (r : PaymentRequest) {p : Payment} → record_customer_payment r s ≡ ok (p, t) → Step s t
  supplier_paid :
      (r : PaymentRequest) {p : Payment} → record_supplier_payment r s ≡ ok (p, t) → Step s t
  payment_voided : (shop_id id : ℕ) → void_payment shop_id id s ≡ ok (tt, t) → Step s t
  opening_posted :
      (r : OpeningRequest) {b : OpeningInventoryBatch}
      → post_opening_inventory r s ≡ ok (b, t)
      → Step s t
  stock_added : (c : Change) {m : InventoryMovement} → add_stock c s ≡ ok (m, t) → Step s t
  stock_removed : (c : Change) {m : InventoryMovement} → remove_stock c s ≡ ok (m, t) → Step s t
  stock_adjusted :
      (a : Adjustment) {m : InventoryMovement} → adjust_stock a s ≡ ok (m, t) → Step s t
  elsewhere :
      t.inventory ≡ s.inventory
      → t.movements ≡ s.movements
      → t.accounts ≡ s.accounts
      → t.ledger ≡ s.ledger
      → Step s t

pub data Reach (s : Db) : Db → Type 0 where
  here : Reach s s
  next : {t u : Db} → Reach s t → Step t u → Reach s u

-- An adjustment, if it is one, is no negative decimal half way between two thousandths.
abbrev pub IsUntied : {s t : Db} → Step s t → Type 0
IsUntied (stock_adjusted a e) = ¬ (IsNegativeTie a.quantity_delta)
IsUntied _ = Unit

abbrev pub AreUntied : {s t : Db} → Reach s t → Type 0
AreUntied here = Unit
AreUntied (next r st) = AreUntied r × IsUntied st

-- A database in which nothing has been stocked or posted yet.
pub record IsFresh (s : Db) : Type 0 where
  pub no_inventory : s.inventory ≡ []
  pub no_movements : s.movements ≡ []
  pub no_ledger : s.ledger ≡ []
