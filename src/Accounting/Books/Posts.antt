-- ===== src/Accounting/Books/Posts.antt =====
-- Every posting function of the accounting service keeps the ledger balanced.
use kapra_os.Prelude.{ℕ, ℤ, String, Option}
use kapra_os.Decimal.{Decimal}
use kapra_os.Tables.{Sale, Payment, Purchase, Expense, Reference}
use kapra_os.Session.Keeps.{Keeps, keeps_rules}
use kapra_os.Accounting.Posts.{
  post_sale, post_cogs, post_sale_return, post_transfer, post_purchase_return, post_expense,
  post_opening_inventory, post_purchase, post_customer_payment, post_supplier_payment,
}
use kapra_os.Accounting.Books.Sums.{IsBalanced}
use kapra_os.Accounting.Books.Writers.{
  post_group-IsBalanced, ensure_system_accounts-IsBalanced, account-IsBalanced,
}

ruleset posting_rules =
    (keeps_rules, post_group-IsBalanced, ensure_system_accounts-IsBalanced, account-IsBalanced)

module _ (description : Option String) where
  pub post_sale-IsBalanced : (sale : Sale) → Keeps IsBalanced (post_sale sale description)
  unfolding post_sale
  post_sale-IsBalanced sale = search posting_rules depth 20

  pub post_cogs-IsBalanced : (sale : Sale) → Keeps IsBalanced (post_cogs sale description)
  unfolding post_cogs
  post_cogs-IsBalanced sale = search posting_rules depth 20

  pub post_sale_return-IsBalanced :
      (sale : Sale) (return_id : ℕ) (total_refund ar_amount cash_refund cogs_amount : ℤ)
      → Keeps IsBalanced (
          post_sale_return sale return_id total_refund ar_amount cash_refund cogs_amount
            description)
  unfolding post_sale_return
  post_sale_return-IsBalanced sale return_id total_refund ar_amount cash_refund cogs_amount =
      search posting_rules depth 24

  post_transfer-IsBalanced :
      (shop_id : ℕ) (kind : Reference) (reference_id debited credited : ℕ) (amount : ℤ)
      → Keeps IsBalanced
          (post_transfer shop_id kind reference_id debited credited amount description)
  unfolding post_transfer
  post_transfer-IsBalanced shop_id kind reference_id debited credited amount =
      post_group-IsBalanced _ _ _ _

  pub post_purchase_return-IsBalanced :
      (shop_id return_id : ℕ) (total : ℤ)
      → Keeps IsBalanced (post_purchase_return shop_id return_id total description)
  unfolding post_purchase_return
  post_purchase_return-IsBalanced shop_id return_id total =
      search (posting_rules, post_transfer-IsBalanced) depth 20

  pub post_expense-IsBalanced :
      (expense : Expense) → Keeps IsBalanced (post_expense expense description)
  unfolding post_expense
  post_expense-IsBalanced expense = search (posting_rules, post_transfer-IsBalanced) depth 20

  pub post_opening_inventory-IsBalanced :
      (shop_id batch_id : ℕ) (total_value : Decimal)
      → Keeps IsBalanced (post_opening_inventory shop_id batch_id total_value description)
  unfolding post_opening_inventory
  post_opening_inventory-IsBalanced shop_id batch_id total_value =
      search (posting_rules, post_transfer-IsBalanced) depth 20

  pub post_purchase-IsBalanced :
      (purchase : Purchase) → Keeps IsBalanced (post_purchase purchase description)
  unfolding post_purchase
  post_purchase-IsBalanced purchase = search (posting_rules, post_transfer-IsBalanced) depth 20

  pub post_customer_payment-IsBalanced :
      (payment : Payment) → Keeps IsBalanced (post_customer_payment payment description)
  unfolding post_customer_payment
  post_customer_payment-IsBalanced payment =
      search (posting_rules, post_transfer-IsBalanced) depth 20

  pub post_supplier_payment-IsBalanced :
      (payment : Payment) → Keeps IsBalanced (post_supplier_payment payment description)
  unfolding post_supplier_payment
  post_supplier_payment-IsBalanced payment =
      search (posting_rules, post_transfer-IsBalanced) depth 20
