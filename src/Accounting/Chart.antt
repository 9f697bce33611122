-- ===== src/Accounting/Chart.antt =====
-- The chart of accounts of backend/app/services/accounting.py: the account codes (decimal texts in
-- the source, numbers here), the default accounts, and their creation on demand.
use kapra_os.Prelude.{
  ℕ, String, Bool, ◌==◌, if◌then◌else◌, true, Option, none, some, List, [], ◌∷◌, ◌++◌,
}
use kapra_os.Tables.{Db, Account, AccountType, PaymentMethod, ExpenseCategory}
use kapra_os.Session.{Error, Exec, pure, gets, or_raise, modify, guard, ◌>>=◌, ◌>>◌, new_uuid}
use kapra_os.Accounting.Group.{any_row}

abbrev pub cash_code : ℕ
cash_code = 1000

abbrev pub bank_code : ℕ
bank_code = 1010

abbrev pub accounts_receivable : ℕ
accounts_receivable = 1100

abbrev pub inventory_code : ℕ
inventory_code = 1200

abbrev pub accounts_payable : ℕ
accounts_payable = 2000

abbrev pub owner_equity : ℕ
owner_equity = 3000

abbrev pub opening_balance_equity : ℕ
opening_balance_equity = 3100

abbrev pub sales_revenue : ℕ
sales_revenue = 4000

abbrev pub cost_of_goods_sold : ℕ
cost_of_goods_sold = 5000

-- code, name and type
abbrev pub default_accounts : List (ℕ × String × AccountType)
default_accounts =
    (cash_code, "Cash", AccountType.asset)
    ∷ (bank_code, "Bank", AccountType.asset)
    ∷ (accounts_receivable, "Accounts Receivable", AccountType.asset)
    ∷ (inventory_code, "Inventory", AccountType.asset)
    ∷ (accounts_payable, "Accounts Payable", AccountType.liability)
    ∷ (owner_equity, "Owner Equity", AccountType.equity)
    ∷ (opening_balance_equity, "Opening Balance Equity", AccountType.equity)
    ∷ (sales_revenue, "Sales Revenue", AccountType.revenue)
    ∷ (cost_of_goods_sold, "Cost of Goods Sold", AccountType.expense)
    ∷ (5100, "Rent Expense", AccountType.expense)
    ∷ (5200, "Utilities Expense", AccountType.expense)
    ∷ (5300, "Salaries Expense", AccountType.expense)
    ∷ (5400, "Marketing Expense", AccountType.expense)
    ∷ (5500, "Transport Expense", AccountType.expense)
    ∷ (5600, "Maintenance Expense", AccountType.expense)
    ∷ (5700, "Supplies Expense", AccountType.expense)
    ∷ (5900, "Other Expense", AccountType.expense)
    ∷ []

-- `_CATEGORY_ACCOUNT_CODES`; the enum is exhaustive, so nothing is raised.
unfoldable pub expense_account_code : ExpenseCategory → ℕ
expense_account_code ExpenseCategory.rent = 5100
expense_account_code ExpenseCategory.salary = 5300
expense_account_code ExpenseCategory.utilities = 5200
expense_account_code ExpenseCategory.transport = 5500
expense_account_code ExpenseCategory.marketing = 5400
expense_account_code ExpenseCategory.maintenance = 5600
expense_account_code ExpenseCategory.supplies = 5700
expense_account_code ExpenseCategory.other = 5900

-- `_METHOD_ACCOUNT_CODES`
unfoldable pub payment_account_code : PaymentMethod → ℕ
payment_account_code PaymentMethod.cash = cash_code
payment_account_code PaymentMethod.card = bank_code
payment_account_code PaymentMethod.bank = bank_code
payment_account_code PaymentMethod.jazzcash = bank_code
payment_account_code PaymentMethod.easypaisa = bank_code
payment_account_code PaymentMethod.other = cash_code

-- `select(Account).where(Account.shop_id == shop_id)`
abbrev pub accounts_of : ℕ → List Account → List Account
accounts_of shop_id [] = []
accounts_of shop_id (a ∷ rest) =
    let found = accounts_of shop_id rest in if a.shop_id == shop_id then a ∷ found else found

-- `by_code.get(code)`; the pair of shop and code is unique in the table.
abbrev pub by_code : ℕ → List Account → Option Account
by_code code [] = none
by_code code (a ∷ rest) = if a.code == code then some a else by_code code rest

-- The foreign key of `shop_id` into `shops`.
abbrev pub shop_exists : ℕ → Db → Bool
shop_exists shop_id s = any_row (λ id. id == shop_id) s.shops

-- One round of the loop over `DEFAULT_ACCOUNTS`. The flush after the loop tests the foreign key;
-- nothing is read or written between, so the row's own test raises the same error.
unfoldable pub ensure_account : ℕ → ℕ × String × AccountType → List Account → Exec (List Account)
ensure_account shop_id (code, name, account_type) known = elim (by_code code known) [
  | some _ ↦ pure known
  | none ↦ (do
    id ← new_uuid
    let account : Account = record {
      id = id;
      shop_id = shop_id;
      code = code;
      name = name;
      account_type = account_type;
      is_system = true;
    }
    exists ← gets (shop_exists shop_id)
    guard exists Error.integrity
    modify (λ s. record s { accounts = s.accounts ++ account ∷ [] })
    pure (known ++ account ∷ []))
]

unfoldable pub ensure_accounts :
    ℕ → List (ℕ × String × AccountType) → List Account → Exec (List Account)
ensure_accounts shop_id [] known = pure known
ensure_accounts shop_id (d ∷ defaults) known = do
  known' ← ensure_account shop_id d known
  ensure_accounts shop_id defaults known'

unfoldable pub ensure_system_accounts : ℕ → Exec (List Account)
ensure_system_accounts shop_id = do
  existing ← gets (λ s. accounts_of shop_id s.accounts)
  ensure_accounts shop_id default_accounts existing

-- `accounts[code]`
unfoldable pub account : List Account → ℕ → Exec Account
account accounts code = or_raise (by_code code accounts) Error.key_error
