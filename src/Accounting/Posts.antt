-- ===== src/Accounting/Posts.antt =====
-- The `post_*` functions of backend/app/services/accounting.py: each builds the lines of one
-- business event and hands them to `post_group`.
use kapra_os.Prelude.{
  ℕ, String, ◌==◌, if◌then◌else◌, Bool, true, false, ◌&&◌, Option, none, some, List, [], ◌∷◌, ◌++◌,
  ℤ, pos, ◌+ℤ◌, ◌-ℤ◌, ltb_ℤ, leb_ℤ, eqb_ℤ, min_ℤ, not,
}
use kapra_os.Decimal.{Decimal, cents, mills, mul, add, quantize, money_scale}
use kapra_os.Tables.{LedgerEntry, Reference, Sale, SaleItem, SaleStatus, Payment, Purchase, Expense}
use kapra_os.Session.{Error, Exec, pure, gets, guard, ◌>>=◌, ◌>>◌}
use kapra_os.Accounting.Chart.{
  cash_code, bank_code, accounts_receivable, inventory_code, accounts_payable,
  opening_balance_equity, sales_revenue, cost_of_goods_sold, ensure_system_accounts, account,
  expense_account_code, payment_account_code,
}
use kapra_os.Accounting.Group.{Line, debit_line, credit_line, post_group, select}

-- A dict of amounts by account, in insertion order.
abbrev pub Amounts : Type 0
Amounts = List (ℕ × ℤ)

-- `by_account[id] = by_account.get(id, _ZERO) + amount`
abbrev pub add_amount : ℕ → ℤ → Amounts → Amounts
add_amount id amount [] = (id, pos 0 +ℤ amount) ∷ []
add_amount id amount ((k, v) ∷ rest) =
    let others = add_amount id amount rest in
    if id == k then (k, v +ℤ amount) ∷ rest else (k, v) ∷ others

-- The loop that allocates a sale's payments to cash and bank.
unfoldable pub by_account : ℕ → ℕ → Amounts → List Payment → Amounts
by_account cash bank amounts [] = amounts
by_account cash bank amounts (p ∷ payments) =
    by_account cash bank
      (add_amount (if payment_account_code p.method == cash_code then cash else bank) p.amount
        amounts)
      payments

-- `sum(by_account.values())`
unfoldable pub allocated : Amounts → ℤ
allocated [] = pos 0
allocated ((_, v) ∷ rest) = v +ℤ allocated rest

unfoldable pub payment_lines : Option String → Amounts → List Line
payment_lines description [] = []
payment_lines description ((id, v) ∷ rest) =
    let others = payment_lines description rest in
    if ltb_ℤ (pos 0) v then debit_line id v description ∷ others else others

abbrev pub same_id : Option ℕ → ℕ → Bool
same_id none id = false
same_id (some k) id = k == id

abbrev pub sale_payments : ℕ → ℕ → List Payment → List Payment
sale_payments shop_id sale_id = select (λ p. p.shop_id == shop_id && same_id p.sale_id sale_id)

abbrev pub line_if : Bool → Line → List Line
line_if true line = line ∷ []
line_if false line = []

-- The lines of `post_sale`.
unfoldable pub sale_lines : ℕ → ℕ → ℕ → ℤ → ℤ → Amounts → Option String → List Line
sale_lines cash receivable revenue total paid amounts description =
    let due = total -ℤ paid in
    let paid_in = allocated amounts in
    payment_lines description amounts
    ++ (line_if (ltb_ℤ paid_in paid) (debit_line cash (paid -ℤ paid_in) description)
        ++ (line_if (ltb_ℤ (pos 0) due) (debit_line receivable due description)
            ++ credit_line revenue total description ∷ []))

unfoldable pub post_sale : Sale → Option String → Exec (List LedgerEntry)
post_sale sale description = do
  accounts ← ensure_system_accounts sale.shop_id
  cash ← account accounts cash_code
  bank ← account accounts bank_code
  receivable ← account accounts accounts_receivable
  revenue ← account accounts sales_revenue
  if leb_ℤ sale.total (pos 0) then pure [] else do
    payments ← gets (λ s. sale_payments sale.shop_id sale.id s.payments)
    post_group sale.shop_id Reference.sale sale.id (
        sale_lines cash.id receivable.id revenue.id sale.total sale.paid_amount
          (by_account cash.id bank.id [] payments) description)

-- `SUM(SaleItem.quantity * SaleItem.cost_price)`
unfoldable pub cost_of_items : List SaleItem → Decimal
cost_of_items [] = cents (pos 0)
cost_of_items (item ∷ items) =
    add (mul (mills item.quantity) (cents item.cost_price)) (cost_of_items items)

-- `sale.status in _QUALIFYING_SALE_STATUSES`
unfoldable pub is_qualifying : SaleStatus → Bool
is_qualifying SaleStatus.completed = true
is_qualifying SaleStatus.partial = true
is_qualifying _ = false

unfoldable pub post_cogs : Sale → Option String → Exec (List LedgerEntry)
post_cogs sale description = if not (is_qualifying sale.status) then pure [] else do
  accounts ← ensure_system_accounts sale.shop_id
  cogs_account ← account accounts cost_of_goods_sold
  inventory ← account accounts inventory_code
  let cogs = quantize money_scale (cost_of_items sale.items)
  if leb_ℤ cogs (pos 0)
      then pure []
      else post_group sale.shop_id Reference.sale_cogs sale.id (
          debit_line cogs_account.id cogs description
          ∷ credit_line inventory.id cogs description
          ∷ [])

-- The loop that gives a cash refund back to the accounts it was paid into: the lines, and what
-- remains to be refunded.
unfoldable pub refund_lines : Option String → ℤ → Amounts → List Line × ℤ
refund_lines description remaining [] = ([], remaining)
refund_lines description remaining ((id, v) ∷ rest) =
    elim (ltb_ℤ (pos 0) v && ltb_ℤ (pos 0) remaining) [
      | true ↦
          let (lines, left) = refund_lines description (remaining -ℤ min_ℤ v remaining) rest in
          (credit_line id (min_ℤ v remaining) description ∷ lines, left)
      | false ↦ refund_lines description remaining rest
    ]

-- The accounts that a customer return touches.
pub record ReturnAccounts : Type 0 where
  pub cash : ℕ
  pub bank : ℕ
  pub receivable : ℕ
  pub revenue : ℕ
  pub cogs : ℕ
  pub inventory : ℕ

unfoldable pub sale_return_lines :
    ReturnAccounts → ℤ → ℤ → ℤ → ℤ → Amounts → Option String → List Line
sale_return_lines a total_refund ar_amount cash_refund cogs_amount amounts description =
    let (refunds, remaining) = refund_lines description cash_refund amounts in
    debit_line a.revenue total_refund description
    ∷ (line_if (ltb_ℤ (pos 0) ar_amount) (credit_line a.receivable ar_amount description)
        ++ (refunds
            ++ (line_if (ltb_ℤ (pos 0) remaining) (credit_line a.cash remaining description)
                ++ (if ltb_ℤ (pos 0) cogs_amount
                    then debit_line a.inventory cogs_amount description
                      ∷ credit_line a.cogs cogs_amount description
                      ∷ []
                    else []))))

unfoldable pub post_sale_return : Sale → ℕ → ℤ → ℤ → ℤ → ℤ → Option String → Exec (List LedgerEntry)
post_sale_return sale return_id total_refund ar_amount cash_refund cogs_amount description = do
  accounts ← ensure_system_accounts sale.shop_id
  cash ← account accounts cash_code
  bank ← account accounts bank_code
  receivable ← account accounts accounts_receivable
  revenue ← account accounts sales_revenue
  cogs_account ← account accounts cost_of_goods_sold
  inventory ← account accounts inventory_code
  if leb_ℤ total_refund (pos 0) then pure [] else do
    guard (eqb_ℤ (ar_amount +ℤ cash_refund) total_refund) Error.unbalanced_posting
    payments ← gets (λ s. sale_payments sale.shop_id sale.id s.payments)
    post_group sale.shop_id Reference.sale_return return_id (
        sale_return_lines
          (record {
            cash = cash.id;
            bank = bank.id;
            receivable = receivable.id;
            revenue = revenue.id;
            cogs = cogs_account.id;
            inventory = inventory.id;
          })
          total_refund ar_amount cash_refund cogs_amount (by_account cash.id bank.id [] payments)
          description)

-- Debit one account and credit another with one amount, for one reference.
unfoldable pub post_transfer :
    ℕ → Reference → ℕ → ℕ → ℕ → ℤ → Option String → Exec (List LedgerEntry)
post_transfer shop_id kind reference_id debited credited amount description =
    post_group shop_id kind reference_id
      (debit_line debited amount description ∷ credit_line credited amount description ∷ [])

unfoldable pub post_purchase_return : ℕ → ℕ → ℤ → Option String → Exec (List LedgerEntry)
post_purchase_return shop_id return_id total description = do
  accounts ← ensure_system_accounts shop_id
  payable ← account accounts accounts_payable
  inventory ← account accounts inventory_code
  if leb_ℤ total (pos 0)
      then pure []
      else post_transfer shop_id Reference.purchase_return return_id payable.id inventory.id total
          description

unfoldable pub post_expense : Expense → Option String → Exec (List LedgerEntry)
post_expense expense description = do
  accounts ← ensure_system_accounts expense.shop_id
  expense_account ← account accounts (expense_account_code expense.category)
  asset ← account accounts (payment_account_code expense.payment_method)
  if leb_ℤ expense.amount (pos 0)
      then pure []
      else post_transfer expense.shop_id Reference.expense expense.id expense_account.id asset.id
          expense.amount description

unfoldable pub post_opening_inventory : ℕ → ℕ → Decimal → Option String → Exec (List LedgerEntry)
post_opening_inventory shop_id batch_id total_value description = do
  accounts ← ensure_system_accounts shop_id
  inventory ← account accounts inventory_code
  equity ← account accounts opening_balance_equity
  let total = quantize money_scale total_value
  guard (ltb_ℤ (pos 0) total) Error.invalid_ledger_line
  post_transfer shop_id Reference.opening_inventory batch_id inventory.id equity.id total
      description

unfoldable pub post_purchase : Purchase → Option String → Exec (List LedgerEntry)
post_purchase purchase description = do
  accounts ← ensure_system_accounts purchase.shop_id
  inventory ← account accounts inventory_code
  payable ← account accounts accounts_payable
  if leb_ℤ purchase.total (pos 0)
      then pure []
      else post_transfer purchase.shop_id Reference.purchase purchase.id inventory.id payable.id
          purchase.total description

unfoldable pub post_customer_payment : Payment → Option String → Exec (List LedgerEntry)
post_customer_payment payment description = do
  accounts ← ensure_system_accounts payment.shop_id
  receivable ← account accounts accounts_receivable
  asset ← account accounts (payment_account_code payment.method)
  post_transfer payment.shop_id Reference.customer_payment payment.id asset.id receivable.id
      payment.amount description

unfoldable pub post_supplier_payment : Payment → Option String → Exec (List LedgerEntry)
post_supplier_payment payment description = do
  accounts ← ensure_system_accounts payment.shop_id
  payable ← account accounts accounts_payable
  asset ← account accounts (payment_account_code payment.method)
  post_transfer payment.shop_id Reference.supplier_payment payment.id payable.id asset.id
      payment.amount description
