-- ===== src/Documents.antt =====
-- What a property must survive to hold across the services that write returns, payments and opening
-- stock, and the two properties that do.
use kapra_os.Prelude.{ℕ, ℤ, String, Option, ◌≡◌}
use kapra_os.Decimal.{Decimal}
use kapra_os.Tables.{Db, Sale, Payment}
use kapra_os.Session.Keeps.{Keeps}
use kapra_os.Inventory.Reconciled.{IsReconciled}
use kapra_os.Accounting.Posts.{
  post_sale_return, post_purchase_return, post_customer_payment, post_supplier_payment,
  post_opening_inventory,
}
use kapra_os.Accounting.Books.Sums.{IsBalanced}
use kapra_os.Accounting.Books.Posts.{
  post_sale_return-IsBalanced, post_purchase_return-IsBalanced, post_customer_payment-IsBalanced,
  post_supplier_payment-IsBalanced, post_opening_inventory-IsBalanced,
}
use kapra_os.Accounting.Frame.{ReadsStock, ReadsStock-IgnoresBooks}
use kapra_os.Accounting.FramePosts.{
  post_sale_return-keeps, post_purchase_return-keeps, post_customer_payment-keeps,
  post_supplier_payment-keeps, post_opening_inventory-keeps,
}
use kapra_os.Sales.Invariants.Create.{Ignores}
use kapra_os.Sales.Invariants.Both.{
  IsBalanced-Survives, IsBalanced-ReadsBooks, ReadsStock-Ignores, IsReconciled-ReadsStock,
}

pub record IgnoresDocuments (P : Db → Type 0) : Type 0 where
  pub others : Ignores P
  pub sale_return :
      (sale : Sale) (id : ℕ) (refund ar cash cogs : ℤ) (description : Option String)
      → Keeps P (post_sale_return sale id refund ar cash cogs description)
  pub purchase_return :
      (shop_id id : ℕ) (total : ℤ) (description : Option String)
      → Keeps P (post_purchase_return shop_id id total description)
  pub customer_payment :
      (payment : Payment) (description : Option String)
      → Keeps P (post_customer_payment payment description)
  pub supplier_payment :
      (payment : Payment) (description : Option String)
      → Keeps P (post_supplier_payment payment description)
  pub opening :
      (shop_id id : ℕ) (total : Decimal) (description : Option String)
      → Keeps P (post_opening_inventory shop_id id total description)
  -- It reads the stock and the books alone.
  pub unread :
      (s t : Db)
      → s.inventory ≡ t.inventory
      → s.movements ≡ t.movements
      → s.ledger ≡ t.ledger
      → s.accounts ≡ t.accounts
      → P s
      → P t

pub ReadsStock-IgnoresDocuments : {P : Db → Type 0} → ReadsStock P → IgnoresDocuments P
ReadsStock-IgnoresDocuments same = record {
  others = ReadsStock-Ignores same;
  sale_return =
      λ x i r a c g d. post_sale_return-keeps (ReadsStock-IgnoresBooks same) d x i r a c g;
  purchase_return = λ x i t d. post_purchase_return-keeps (ReadsStock-IgnoresBooks same) d x i t;
  customer_payment = λ p d. post_customer_payment-keeps (ReadsStock-IgnoresBooks same) d p;
  supplier_payment = λ p d. post_supplier_payment-keeps (ReadsStock-IgnoresBooks same) d p;
  opening = λ x i t d. post_opening_inventory-keeps (ReadsStock-IgnoresBooks same) d x i t;
  unread = λ s t i m l a h. same s t i m h;
}

pub IsReconciled-IgnoresDocuments : IgnoresDocuments IsReconciled
IsReconciled-IgnoresDocuments = ReadsStock-IgnoresDocuments IsReconciled-ReadsStock

pub IsBalanced-IgnoresDocuments : IgnoresDocuments IsBalanced
IsBalanced-IgnoresDocuments = record {
  others = IsBalanced-Survives.others;
  sale_return = λ x i r a c g d. post_sale_return-IsBalanced d x i r a c g;
  purchase_return = λ x i t d. post_purchase_return-IsBalanced d x i t;
  customer_payment = λ p d. post_customer_payment-IsBalanced d p;
  supplier_payment = λ p d. post_supplier_payment-IsBalanced d p;
  opening = λ x i t d. post_opening_inventory-IsBalanced d x i t;
  unread = λ s t i m l a h. IsBalanced-ReadsBooks s t l a h;
}
