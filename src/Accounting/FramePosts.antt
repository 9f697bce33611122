-- ===== src/Accounting/FramePosts.antt =====
-- The postings of returns, payments and opening stock leave the stock alone.
use kapra_os.Prelude.{ℕ, ℤ, String, Option}
use kapra_os.Decimal.{Decimal}
use kapra_os.Tables.{Db, Sale, Payment}
use kapra_os.Session.Keeps.{Keeps}
use kapra_os.Accounting.Posts.{
  post_transfer, post_sale_return, post_purchase_return, post_customer_payment,
  post_supplier_payment, post_opening_inventory,
}
use kapra_os.Accounting.Frame.{IgnoresBooks, frame_rules}

module _ {P : Db → Type 0} (same : IgnoresBooks P) (description : Option String) where
  pub post_sale_return-keeps :
      (sale : Sale) (id : ℕ) (refund ar cash cogs : ℤ)
      → Keeps P (post_sale_return sale id refund ar cash cogs description)
  unfolding post_sale_return
  post_sale_return-keeps sale id refund ar cash cogs = search frame_rules depth 24

  pub post_purchase_return-keeps :
      (shop_id id : ℕ) (total : ℤ) → Keeps P (post_purchase_return shop_id id total description)
  unfolding post_purchase_return post_transfer
  post_purchase_return-keeps shop_id id total = search frame_rules depth 20

  pub post_customer_payment-keeps :
      (payment : Payment) → Keeps P (post_customer_payment payment description)
  unfolding post_customer_payment post_transfer
  post_customer_payment-keeps payment = search frame_rules depth 20

  pub post_supplier_payment-keeps :
      (payment : Payment) → Keeps P (post_supplier_payment payment description)
  unfolding post_supplier_payment post_transfer
  post_supplier_payment-keeps payment = search frame_rules depth 20

  pub post_opening_inventory-keeps :
      (shop_id id : ℕ) (total : Decimal)
      → Keeps P (post_opening_inventory shop_id id total description)
  unfolding post_opening_inventory post_transfer
  post_opening_inventory-keeps shop_id id total = search frame_rules depth 20
