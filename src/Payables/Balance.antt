-- ===== src/Payables/Balance.antt =====
-- What the shop owes a supplier: `_compute_balance`, `get_supplier_balance` and
-- `get_total_outstanding`.
use kapra_os.Prelude.{ℕ, ◌==◌, Bool, true, false, ◌&&◌, not, Option, none, some, List, ℤ, ◌-ℤ◌}
use kapra_os.Tables.{Db, Purchase, Payment, PurchaseReturn}
use kapra_os.Session.{Exec, gets, ◌>>◌}
use kapra_os.Accounting.Group.{any_row}
use kapra_os.Accounting.Posts.{same_id}
use kapra_os.Purchases.Create.{get_supplier}
use kapra_os.Khata.Sums.{sum_where, count_where, latest_where}
use kapra_os.Receivables.Balance.{is_none}

-- `_qualifying_purchases_filter`
abbrev pub purchase_counts : ℕ → ℕ → Purchase → Bool
purchase_counts shop_id supplier_id x = x.shop_id == shop_id && x.supplier_id == supplier_id

-- The correlated EXISTS of `_supplier_payments_filter`.
abbrev pub names_counted : ℕ → ℕ → List Purchase → Option ℕ → Bool
names_counted shop_id supplier_id purchases none = true
names_counted shop_id supplier_id purchases (some purchase_id) =
    any_row (λ x. x.id == purchase_id && purchase_counts shop_id supplier_id x) purchases

-- `_supplier_payments_filter`
abbrev pub payment_counts : ℕ → ℕ → List Purchase → Payment → Bool
payment_counts shop_id supplier_id purchases p =
    p.shop_id == shop_id
    && same_id p.supplier_id supplier_id
    && is_none p.customer_id
    && is_none p.sale_id
    && names_counted shop_id supplier_id purchases p.purchase_id

-- `_supplier_returns_filter`
abbrev pub return_counts : ℕ → ℕ → PurchaseReturn → Bool
return_counts shop_id supplier_id x = x.shop_id == shop_id && x.supplier_id == supplier_id

pub record SupplierBalance : Type 0 where
  pub supplier_id : ℕ
  pub total_purchases : ℤ
  pub total_payments : ℤ
  pub total_returns : ℤ
  pub outstanding_balance : ℤ
  pub number_of_purchases : ℕ
  pub number_of_payments : ℕ
  pub number_of_returns : ℕ
  pub last_purchase_at : Option ℕ
  pub last_payment_at : Option ℕ
  pub last_return_at : Option ℕ

-- `total_purchases - total_payments - total_returns`, of the rows that `d` takes by their time.
unfoldable pub outstanding_when : (ℕ → Bool) → ℕ → ℕ → Db → ℤ
unfolding sum_where
outstanding_when d shop_id supplier_id s =
    sum_where (λ x. purchase_counts shop_id supplier_id x && d x.created_at) (λ x. x.total)
      s.purchases
    -ℤ sum_where (λ p. payment_counts shop_id supplier_id s.purchases p && d p.created_at)
        (λ p. p.amount) s.payments
    -ℤ sum_where (λ x. return_counts shop_id supplier_id x && d x.created_at) (λ x. x.total_amount)
        s.purchase_returns

-- `_compute_balance`
unfoldable pub compute_balance : ℕ → ℕ → Db → SupplierBalance
unfolding sum_where count_where latest_where
compute_balance shop_id supplier_id s =
    let bought = purchase_counts shop_id supplier_id in
    let paid = payment_counts shop_id supplier_id s.purchases in
    let returned = return_counts shop_id supplier_id in
    let total_purchases = sum_where bought (λ x. x.total) s.purchases in
    let total_payments = sum_where paid (λ p. p.amount) s.payments in
    let total_returns = sum_where returned (λ x. x.total_amount) s.purchase_returns in
    record {
      supplier_id = supplier_id;
      total_purchases = total_purchases;
      total_payments = total_payments;
      total_returns = total_returns;
      outstanding_balance = total_purchases -ℤ total_payments -ℤ total_returns;
      number_of_purchases = count_where bought s.purchases;
      number_of_payments = count_where paid s.payments;
      number_of_returns = count_where returned s.purchase_returns;
      last_purchase_at = latest_where bought (λ x. x.created_at) s.purchases;
      last_payment_at = latest_where paid (λ p. p.created_at) s.payments;
      last_return_at = latest_where returned (λ x. x.created_at) s.purchase_returns;
    }

unfoldable pub get_supplier_balance : ℕ → ℕ → Exec SupplierBalance
unfolding compute_balance
get_supplier_balance shop_id supplier_id = do
  get_supplier shop_id supplier_id
  gets (compute_balance shop_id supplier_id)

-- `Purchase.id == Payment.purchase_id` with the purchase's own supplier.
abbrev pub purchase_of_supplier : ℕ → Option ℕ → ℕ → Purchase → Bool
purchase_of_supplier shop_id none purchase_id x = false
purchase_of_supplier shop_id (some supplier_id) purchase_id x =
    x.id == purchase_id && purchase_counts shop_id supplier_id x

abbrev pub names_own : ℕ → Option ℕ → List Purchase → Option ℕ → Bool
names_own shop_id supplier purchases none = true
names_own shop_id supplier purchases (some purchase_id) =
    any_row (purchase_of_supplier shop_id supplier purchase_id) purchases

-- `_shop_supplier_payments_filter`
abbrev pub shop_payment_counts : ℕ → List Purchase → Payment → Bool
shop_payment_counts shop_id purchases p =
    p.shop_id == shop_id
    && not (is_none p.supplier_id)
    && is_none p.customer_id
    && is_none p.sale_id
    && names_own shop_id p.supplier_id purchases p.purchase_id

unfoldable pub get_total_outstanding : ℕ → Db → ℤ
unfolding sum_where
get_total_outstanding shop_id s =
    sum_where (λ x. x.shop_id == shop_id) (λ x. x.total) s.purchases
    -ℤ sum_where (shop_payment_counts shop_id s.purchases) (λ p. p.amount) s.payments
    -ℤ sum_where (λ x. x.shop_id == shop_id) (λ x. x.total_amount) s.purchase_returns
