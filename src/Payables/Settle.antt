-- ===== src/Payables/Settle.antt =====
-- `record_supplier_payment` of backend/app/services/payables.py.
use kapra_os.Prelude.{
  ℕ, ◌==◌, Bool, true, Option, none, some, [], ◌∷◌, ◌++◌, ℤ, pos, ◌+ℤ◌, ◌-ℤ◌, ltb_ℤ, leb_ℤ,
}
use kapra_os.Decimal.{quantize, money_scale}
use kapra_os.Tables.{Purchase, Payment}
use kapra_os.Session.{Error, Exec, pure, gets, or_raise, modify, guard, ◌>>=◌, ◌>>◌, new_uuid}
use kapra_os.Accounting.Posts.{post_supplier_payment}
use kapra_os.Purchases.Create.{get_supplier}
use kapra_os.Purchases.Void.{find_purchase}
use kapra_os.Purchases.Edit.{save_purchase}
use kapra_os.Receivables.Settle.{PaymentRequest}
use kapra_os.Payables.Balance.{compute_balance}

unfoldable pub get_settleable_purchase : ℕ → ℕ → ℕ → Exec Purchase
get_settleable_purchase shop_id supplier_id purchase_id = do
  found ← gets (λ s. find_purchase shop_id purchase_id s.purchases)
  purchase ← or_raise found Error.purchase_not_found
  guard (purchase.supplier_id == supplier_id) Error.purchase_supplier_mismatch
  pure purchase

unfoldable pub settleable_if : ℕ → ℕ → Option ℕ → Exec (Option Purchase)
settleable_if shop_id supplier_id none = pure none
settleable_if shop_id supplier_id (some purchase_id) = do
  purchase ← get_settleable_purchase shop_id supplier_id purchase_id
  pure (some purchase)

-- `amount <= purchase.due_amount`
abbrev pub within_due : ℤ → Option Purchase → Bool
within_due amount none = true
within_due amount (some purchase) = leb_ℤ amount (purchase.total -ℤ purchase.paid_amount)

abbrev pub paid_purchase : Purchase → ℤ → Purchase
paid_purchase purchase amount = record purchase { paid_amount = purchase.paid_amount +ℤ amount }

-- The payment is allocated to its purchase.
unfoldable pub allocate : Option Purchase → ℤ → Exec (Unit {0})
allocate none amount = pure tt
allocate (some purchase) amount = save_purchase (paid_purchase purchase amount)

abbrev pub supplier_payment : PaymentRequest → ℕ → ℕ → ℤ → Payment
supplier_payment r id now amount = record {
  id = id;
  shop_id = r.shop_id;
  customer_id = none;
  supplier_id = some r.party_id;
  sale_id = none;
  purchase_id = r.document_id;
  amount = amount;
  method = r.method;
  reference = r.reference;
  created_at = now;
}

-- What is written once the checks have passed.
unfoldable pub write_supplier_payment : PaymentRequest → Option Purchase → ℤ → Exec Payment
write_supplier_payment r purchase amount = do
  id ← new_uuid
  now ← gets (λ s. s.now)
  allocate purchase amount
  modify (λ s. record s { payments = s.payments ++ supplier_payment r id now amount ∷ [] })
  post_supplier_payment (supplier_payment r id now amount) none
  pure (supplier_payment r id now amount)

unfoldable pub record_supplier_payment : PaymentRequest → Exec Payment
record_supplier_payment r = do
  get_supplier r.shop_id r.party_id
  let amount = quantize money_scale r.amount
  guard (ltb_ℤ (pos 0) amount) Error.invalid_payment_amount
  purchase ← settleable_if r.shop_id r.party_id r.document_id
  balance ← gets (compute_balance r.shop_id r.party_id)
  guard (leb_ℤ amount balance.outstanding_balance) Error.payment_exceeds_outstanding
  guard (within_due amount purchase) Error.payment_exceeds_due
  write_supplier_payment r purchase amount
