-- ===== src/Receivables/Settle.antt =====
-- `record_customer_payment` of backend/app/services/receivables.py.
use kapra_os.Prelude.{
  ℕ, String, Bool, true, Option, none, some, [], ◌∷◌, ◌++◌, ℤ, pos, ◌+ℤ◌, ◌-ℤ◌, ltb_ℤ, leb_ℤ,
}
use kapra_os.Decimal.{Decimal, quantize, money_scale}
use kapra_os.Tables.{Sale, Payment, PaymentMethod}
use kapra_os.Session.{Error, Exec, pure, gets, or_raise, modify, guard, ◌>>=◌, ◌>>◌, new_uuid}
use kapra_os.Accounting.Posts.{same_id, is_qualifying, post_customer_payment}
use kapra_os.Sales.Create.{get_customer, payment_status}
use kapra_os.Sales.Edit.{find_sale, save_sale}
use kapra_os.Receivables.Balance.{compute_balance}

-- The keyword arguments of `record_customer_payment` and `record_supplier_payment`.
pub record PaymentRequest : Type 0 where
  pub shop_id : ℕ
  pub party_id : ℕ
  pub amount : Decimal
  pub method : PaymentMethod
  pub document_id : Option ℕ
  pub reference : Option String

unfoldable pub get_settleable_sale : ℕ → ℕ → ℕ → Exec Sale
get_settleable_sale shop_id customer_id sale_id = do
  found ← gets (λ s. find_sale shop_id sale_id s.sales)
  sale ← or_raise found Error.sale_not_found
  guard (same_id sale.customer_id customer_id) Error.sale_customer_mismatch
  guard (is_qualifying sale.status) Error.sale_not_settleable
  pure sale

unfoldable pub settleable_if : ℕ → ℕ → Option ℕ → Exec (Option Sale)
settleable_if shop_id customer_id none = pure none
settleable_if shop_id customer_id (some sale_id) = do
  sale ← get_settleable_sale shop_id customer_id sale_id
  pure (some sale)

-- `amount <= sale.due_amount`
abbrev pub within_due : ℤ → Option Sale → Bool
within_due amount none = true
within_due amount (some sale) = leb_ℤ amount (sale.total -ℤ sale.paid_amount)

abbrev pub paid_sale : Sale → ℤ → Sale
paid_sale sale amount = record sale {
  paid_amount = sale.paid_amount +ℤ amount;
  status = payment_status (sale.paid_amount +ℤ amount) sale.total;
}

-- The payment is allocated to its sale.
unfoldable pub allocate : Option Sale → ℤ → Exec (Unit {0})
allocate none amount = pure tt
allocate (some sale) amount = save_sale (paid_sale sale amount)

abbrev pub customer_payment : PaymentRequest → ℕ → ℕ → ℤ → Payment
customer_payment r id now amount = record {
  id = id;
  shop_id = r.shop_id;
  customer_id = some r.party_id;
  supplier_id = none;
  sale_id = r.document_id;
  purchase_id = none;
  amount = amount;
  method = r.method;
  reference = r.reference;
  created_at = now;
}

-- What is written once the checks have passed.
unfoldable pub write_customer_payment : PaymentRequest → Option Sale → ℤ → Exec Payment
write_customer_payment r sale amount = do
  id ← new_uuid
  now ← gets (λ s. s.now)
  allocate sale amount
  modify (λ s. record s { payments = s.payments ++ customer_payment r id now amount ∷ [] })
  post_customer_payment (customer_payment r id now amount) none
  pure (customer_payment r id now amount)

unfoldable pub record_customer_payment : PaymentRequest → Exec Payment
record_customer_payment r = do
  get_customer r.shop_id r.party_id
  let amount = quantize money_scale r.amount
  guard (ltb_ℤ (pos 0) amount) Error.invalid_payment_amount
  sale ← settleable_if r.shop_id r.party_id r.document_id
  balance ← gets (compute_balance r.shop_id r.party_id)
  guard (leb_ℤ amount balance.outstanding_balance) Error.payment_exceeds_outstanding
  guard (within_due amount sale) Error.payment_exceeds_due
  write_customer_payment r sale amount
