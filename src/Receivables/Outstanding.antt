-- ===== src/Receivables/Outstanding.antt =====
-- The shop's total receivable and the customers' balances.
use kapra_os.Prelude.{
  ℕ, ◌==◌, if◌then◌else◌, Bool, true, false, ◌≡◌, refl, sym, ◌∙◌, ◌&&◌, not, Option, none, some,
  List, [], ◌∷◌, arith, Bool-cases, inl, inr, ==_iff, &&-left,
}
use kapra_os.Tables.{Db, Owned, Sale, Payment, SaleReturn}
use kapra_os.Accounting.Group.{any_row}
use kapra_os.Accounting.Posts.{same_id, is_qualifying}
use kapra_os.Khata.Sums.{sum_where, count_where}
use kapra_os.Khata.Owners.{sum_over, sum_over-balance, sum_over-owners}
use kapra_os.Receivables.Balance.{
  is_none, sale_counts, payment_counts, return_counts, names_counted, names_own,
  shop_payment_counts, shop_return_counts, compute_balance, get_total_outstanding,
}

-- The shop's customers.
abbrev pub customer_ids : ℕ → List Owned → List ℕ
customer_ids shop_id [] = []
customer_ids shop_id (x ∷ customers) =
    let others = customer_ids shop_id customers in
    if x.shop_id == shop_id then x.id ∷ others else others

-- The foreign keys to `customers` and its primary key: a customer that a sale, a payment or a return
-- of the shop names is a customer of the shop, once.
pub record HasCustomers (shop_id : ℕ) (s : Db) : Type 0 where
  pub of_sales :
      (k : ℕ)
      → any_row (λ x. x.shop_id == shop_id && same_id x.customer_id k) s.sales ≡ true
      → count_where (λ c. k == c) (customer_ids shop_id s.customers) ≡ 1
  pub of_payments :
      (k : ℕ)
      → any_row (λ p. p.shop_id == shop_id && same_id p.customer_id k) s.payments ≡ true
      → count_where (λ c. k == c) (customer_ids shop_id s.customers) ≡ 1
  pub of_returns :
      (k : ℕ)
      → any_row (λ x. x.shop_id == shop_id && same_id x.customer_id k) s.sale_returns ≡ true
      → count_where (λ c. k == c) (customer_ids shop_id s.customers) ≡ 1

owned_first :
    (b d : Bool) (o : Option ℕ)
    → (b && not (is_none o) && d) ≡ true
    → (b ≡ true) × (k : ℕ) × (o ≡ some k)
owned_first true d (some k) h = (refl, k, refl)
owned_first true d none h = ground arith
owned_first false d o h = ground arith

sale-same :
    (shop_id c : ℕ) (x : Sale)
    → sale_counts shop_id c x ≡ (
        same_id x.customer_id c
        && (x.shop_id == shop_id && not (is_none x.customer_id) && is_qualifying x.status))
sale-same shop_id c x = ground arith

-- With the customer fixed, the two correlated subqueries agree.
names_same :
    (shop_id c : ℕ) (sales : List Sale) (o document : Option ℕ)
    → (same_id o c && names_counted shop_id c sales document)
      ≡ (same_id o c && names_own shop_id o sales document)
names_same shop_id c sales none document = refl
names_same shop_id c sales (some k) none = refl
names_same shop_id c sales (some k) (some id) = elim (Bool-cases (k == c)) [
  | inl e ↦ rw ((==_iff k c).0 e) refl
  | inr e ↦ rw e refl
]

owner_some : (o : Option ℕ) (c : ℕ) → same_id o c ≡ true → is_none o ≡ false
owner_some none c h = ground arith
owner_some (some k) c h = refl

regroup :
    (a m n p q x y : Bool)
    → (m && x) ≡ (m && y)
    → (m ≡ true → n ≡ false)
    → (a && m && p && q && x) ≡ (m && (a && not n && p && q && y))
regroup a m n p q x y h k = ground arith

regroup_short :
    (a m n x y : Bool)
    → (m && x) ≡ (m && y)
    → (m ≡ true → n ≡ false)
    → (a && m && x) ≡ (m && (a && not n && y))
regroup_short a m n x y h k = ground arith

payment-same :
    (shop_id c : ℕ) (sales : List Sale) (p : Payment)
    → payment_counts shop_id c sales p
      ≡ (same_id p.customer_id c && shop_payment_counts shop_id sales p)
payment-same shop_id c sales p =
    regroup (p.shop_id == shop_id) (same_id p.customer_id c) (is_none p.customer_id)
      (is_none p.supplier_id) (is_none p.purchase_id) _ _
      (names_same shop_id c sales p.customer_id p.sale_id) (owner_some p.customer_id c)

return-same :
    (shop_id c : ℕ) (sales : List Sale) (x : SaleReturn)
    → return_counts shop_id c sales x
      ≡ (same_id x.customer_id c && shop_return_counts shop_id sales x)
return-same shop_id c sales x =
    regroup_short (x.shop_id == shop_id) (same_id x.customer_id c) (is_none x.customer_id) _ _
      (names_same shop_id c sales x.customer_id (some x.sale_id)) (owner_some x.customer_id c)

module _ (s : Db) (shop_id : ℕ) (keys : HasCustomers shop_id s) where
  sales_total :
      sum_over
        (customer_ids shop_id s.customers)
        (λ c. sum_where (sale_counts shop_id c) (λ x. x.total) s.sales)
      ≡ sum_where
          (λ x. x.shop_id == shop_id && not (is_none x.customer_id) && is_qualifying x.status)
          (λ x. x.total)
          s.sales
  sales_total =
      sum_over-owners (λ x. x.shop_id == shop_id) (λ x. x.customer_id) (sale_counts shop_id) _ _ _ _
        (sale-same shop_id) (λ x. owned_first _ _ x.customer_id) keys.of_sales

  payments_total :
      sum_over
        (customer_ids shop_id s.customers)
        (λ c. sum_where (payment_counts shop_id c s.sales) (λ p. p.amount) s.payments)
      ≡ sum_where (shop_payment_counts shop_id s.sales) (λ p. p.amount) s.payments
  payments_total =
      sum_over-owners (λ p. p.shop_id == shop_id) (λ p. p.customer_id)
        (λ c. payment_counts shop_id c s.sales) (shop_payment_counts shop_id s.sales) _ _ _
        (λ c. payment-same shop_id c s.sales)
        (λ p h. owned_first _ _ p.customer_id (&&-left _ _ (&&-left _ _ h))) keys.of_payments

  returns_total :
      sum_over
        (customer_ids shop_id s.customers)
        (λ c. sum_where (return_counts shop_id c s.sales) (λ x. x.ar_amount) s.sale_returns)
      ≡ sum_where (shop_return_counts shop_id s.sales) (λ x. x.ar_amount) s.sale_returns
  returns_total =
      sum_over-owners (λ x. x.shop_id == shop_id) (λ x. x.customer_id)
        (λ c. return_counts shop_id c s.sales) (shop_return_counts shop_id s.sales) _ _ _
        (λ c. return-same shop_id c s.sales) (λ x. owned_first _ _ x.customer_id) keys.of_returns

-- What the shop is owed in all is the sum of what its customers owe, if each customer that a sale, a
-- payment or a return of the shop names is one of the shop's customers, once.
pub get_total_outstanding-sum :
    (shop_id : ℕ) (s : Db)
    → HasCustomers shop_id s
    → get_total_outstanding shop_id s
      ≡ sum_over
          (customer_ids shop_id s.customers)
          (λ c. (compute_balance shop_id c s).outstanding_balance)
unfolding get_total_outstanding compute_balance
get_total_outstanding-sum shop_id s keys =
    let ids = customer_ids shop_id s.customers in
    sym (
      sum_over-balance ids (λ c. sum_where (sale_counts shop_id c) (λ x. x.total) s.sales)
        (λ c. sum_where (payment_counts shop_id c s.sales) (λ p. p.amount) s.payments)
        (λ c. sum_where (return_counts shop_id c s.sales) (λ x. x.ar_amount) s.sale_returns)
      ∙ rw (sales_total s shop_id keys, payments_total s shop_id keys, returns_total s shop_id keys)
          refl)
