-- ===== src/Receivables/Balance.antt =====
-- What a customer owes: `_compute_balance`, `get_customer_balance` and `get_total_outstanding`.
use kapra_os.Prelude.{ℕ, ◌==◌, Bool, true, false, ◌&&◌, not, Option, none, some, List, ℤ, ◌-ℤ◌}
use kapra_os.Tables.{Db, Sale, Payment, SaleReturn}
use kapra_os.Session.{Exec, gets, ◌>>◌}
use kapra_os.Accounting.Group.{any_row}
use kapra_os.Accounting.Posts.{same_id, is_qualifying}
use kapra_os.Sales.Create.{get_customer}
use kapra_os.Khata.Sums.{sum_where, count_where, latest_where}

abbrev pub is_none {ℓ} : {A : Type ℓ} → Option A → Bool
is_none none = true
is_none (some a) = false

-- `_qualifying_sales_filter`
abbrev pub sale_counts : ℕ → ℕ → Sale → Bool
sale_counts shop_id customer_id x =
    x.shop_id == shop_id && same_id x.customer_id customer_id && is_qualifying x.status

-- The correlated EXISTS of `_customer_payments_filter`.
abbrev pub names_counted : ℕ → ℕ → List Sale → Option ℕ → Bool
names_counted shop_id customer_id sales none = true
names_counted shop_id customer_id sales (some sale_id) =
    any_row (λ x. x.id == sale_id && sale_counts shop_id customer_id x) sales

-- `_customer_payments_filter`
abbrev pub payment_counts : ℕ → ℕ → List Sale → Payment → Bool
payment_counts shop_id customer_id sales p =
    p.shop_id == shop_id
    && same_id p.customer_id customer_id
    && is_none p.supplier_id
    && is_none p.purchase_id
    && names_counted shop_id customer_id sales p.sale_id

-- `_customer_returns_filter`
abbrev pub return_counts : ℕ → ℕ → List Sale → SaleReturn → Bool
return_counts shop_id customer_id sales x =
    x.shop_id == shop_id
    && same_id x.customer_id customer_id
    && any_row (λ sale. sale.id == x.sale_id && sale_counts shop_id customer_id sale) sales

pub record CustomerBalance : Type 0 where
  pub customer_id : ℕ
  pub total_sales : ℤ
  pub total_payments : ℤ
  pub total_returns : ℤ
  pub outstanding_balance : ℤ
  pub number_of_sales : ℕ
  pub number_of_payments : ℕ
  pub number_of_returns : ℕ
  pub last_sale_at : Option ℕ
  pub last_payment_at : Option ℕ
  pub last_return_at : Option ℕ

-- `total_sales - total_payments - total_returns`, of the rows that `d` takes by their time.
unfoldable pub outstanding_when : (ℕ → Bool) → ℕ → ℕ → Db → ℤ
unfolding sum_where
outstanding_when d shop_id customer_id s =
    sum_where (λ x. sale_counts shop_id customer_id x && d x.created_at) (λ x. x.total) s.sales
    -ℤ sum_where (λ p. payment_counts shop_id customer_id s.sales p && d p.created_at)
        (λ p. p.amount) s.payments
    -ℤ sum_where (λ x. return_counts shop_id customer_id s.sales x && d x.created_at)
        (λ x. x.ar_amount) s.sale_returns

-- `_compute_balance`
unfoldable pub compute_balance : ℕ → ℕ → Db → CustomerBalance
unfolding sum_where count_where latest_where
compute_balance shop_id customer_id s =
    let sold = sale_counts shop_id customer_id in
    let paid = payment_counts shop_id customer_id s.sales in
    let returned = return_counts shop_id customer_id s.sales in
    let total_sales = sum_where sold (λ x. x.total) s.sales in
    let total_payments = sum_where paid (λ p. p.amount) s.payments in
    let total_returns = sum_where returned (λ x. x.ar_amount) s.sale_returns in
    record {
      customer_id = customer_id;
      total_sales = total_sales;
      total_payments = total_payments;
      total_returns = total_returns;
      outstanding_balance = total_sales -ℤ total_payments -ℤ total_returns;
      number_of_sales = count_where sold s.sales;
      number_of_payments = count_where paid s.payments;
      number_of_returns = count_where returned s.sale_returns;
      last_sale_at = latest_where sold (λ x. x.created_at) s.sales;
      last_payment_at = latest_where paid (λ p. p.created_at) s.payments;
      last_return_at = latest_where returned (λ x. x.created_at) s.sale_returns;
    }

unfoldable pub get_customer_balance : ℕ → ℕ → Exec CustomerBalance
unfolding compute_balance
get_customer_balance shop_id customer_id = do
  get_customer shop_id customer_id
  gets (compute_balance shop_id customer_id)

-- `Sale.id == Payment.sale_id` with the sale's own customer, in `_shop_customer_payments_filter`.
abbrev pub sale_of_customer : ℕ → Option ℕ → ℕ → Sale → Bool
sale_of_customer shop_id none sale_id x = false
sale_of_customer shop_id (some customer_id) sale_id x =
    x.id == sale_id && sale_counts shop_id customer_id x

abbrev pub names_own : ℕ → Option ℕ → List Sale → Option ℕ → Bool
names_own shop_id customer sales none = true
names_own shop_id customer sales (some sale_id) =
    any_row (sale_of_customer shop_id customer sale_id) sales

-- `_shop_customer_payments_filter`
abbrev pub shop_payment_counts : ℕ → List Sale → Payment → Bool
shop_payment_counts shop_id sales p =
    p.shop_id == shop_id
    && not (is_none p.customer_id)
    && is_none p.supplier_id
    && is_none p.purchase_id
    && names_own shop_id p.customer_id sales p.sale_id

-- `_shop_customer_returns_filter`
abbrev pub shop_return_counts : ℕ → List Sale → SaleReturn → Bool
shop_return_counts shop_id sales x =
    x.shop_id == shop_id
    && not (is_none x.customer_id)
    && any_row (sale_of_customer shop_id x.customer_id x.sale_id) sales

unfoldable pub get_total_outstanding : ℕ → Db → ℤ
unfolding sum_where
get_total_outstanding shop_id s =
    sum_where (λ x. x.shop_id == shop_id && not (is_none x.customer_id) && is_qualifying x.status)
      (λ x. x.total) s.sales
    -ℤ sum_where (shop_payment_counts shop_id s.sales) (λ p. p.amount) s.payments
    -ℤ sum_where (shop_return_counts shop_id s.sales) (λ x. x.ar_amount) s.sale_returns
