-- ===== src/Tables.antt =====
-- The database as one transaction sees it (backend/app/models): a record of tables, in the order of
-- insertion. `uuid4` is the sequence of identifiers that the process draws, `drawn` counts those
-- drawn, and `now` is what `func.now()` returns in this transaction.
pub mod Rows
pub mod Uuid
pub use Rows.*
unfoldable pub use Uuid.{uuid_text}
use kapra_os.Prelude.{ℕ, Bool, ◌==◌, Option, none, some, List, [], ◌∷◌}

pub record Db : Type 0 where
  pub shops : List ℕ
  pub customers : List Owned
  pub suppliers : List Owned
  pub variants : List Owned
  pub inventory : List Inventory
  pub movements : List InventoryMovement
  pub accounts : List Account
  pub ledger : List LedgerEntry
  pub sales : List Sale
  pub payments : List Payment
  pub purchases : List Purchase
  pub sale_returns : List SaleReturn
  pub purchase_returns : List PurchaseReturn
  pub expenses : List Expense
  pub opening_batches : List OpeningInventoryBatch
  pub uuid4 : ℕ → ℕ
  pub drawn : ℕ
  pub now : ℕ

-- A number for each text that a `reference_type` column holds.
abbrev pub reference_tag : Reference → ℕ
reference_tag Reference.sale = 0
reference_tag Reference.sale_cogs = 1
reference_tag Reference.sale_return = 2
reference_tag Reference.purchase = 3
reference_tag Reference.purchase_return = 4
reference_tag Reference.customer_payment = 5
reference_tag Reference.supplier_payment = 6
reference_tag Reference.expense = 7
reference_tag Reference.opening_inventory = 8
reference_tag Reference.sale_edit = 9
reference_tag Reference.sale_void = 10
reference_tag Reference.purchase_edit = 11
reference_tag Reference.purchase_void = 12
reference_tag Reference.adjustment = 13
reference_tag Reference.opening = 14

abbrev pub same_reference : Reference → Reference → Bool
same_reference a b = reference_tag a == reference_tag b
