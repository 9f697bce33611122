-- ===== src/Payments/Void.antt =====
-- `void_payment` of backend/app/api/payments.py.
use kapra_os.Prelude.{
  ℕ, ◌==◌, if◌then◌else◌, ◌&&◌, Option, none, some, List, [], ◌∷◌, ℤ, pos, ◌-ℤ◌, ltb_ℤ,
}
use kapra_os.Tables.{Sale, Purchase, Payment}
use kapra_os.Session.{Error, Exec, pure, gets, or_raise, modify, ◌>>=◌, ◌>>◌}
use kapra_os.Accounting.Group.{reject, delete_postings_for_reference}
use kapra_os.Accounting.Posts.{is_qualifying}
use kapra_os.Sales.Create.{payment_status}
use kapra_os.Sales.Edit.{find_sale, save_sale}
use kapra_os.Purchases.Void.{find_purchase}
use kapra_os.Purchases.Edit.{save_purchase}

abbrev pub find_payment : ℕ → ℕ → List Payment → Option Payment
find_payment shop_id id [] = none
find_payment shop_id id (p ∷ payments) =
    if p.id == id && p.shop_id == shop_id then some p else find_payment shop_id id payments

-- `max(Decimal("0"), paid_amount - amount)`
abbrev pub paid_without : ℤ → ℤ → ℤ
paid_without paid amount = if ltb_ℤ (pos 0) (paid -ℤ amount) then paid -ℤ amount else pos 0

abbrev pub sale_without : Sale → ℤ → Sale
sale_without sale amount = record sale {
  paid_amount = paid_without sale.paid_amount amount;
  status =
      if is_qualifying sale.status
      then payment_status (paid_without sale.paid_amount amount) sale.total
      else sale.status;
}

abbrev pub save_found_sale : Option Sale → ℤ → Exec (Unit {0})
save_found_sale none amount = pure tt
save_found_sale (some sale) amount = save_sale (sale_without sale amount)

-- The amount goes back out of the sale that the payment names.
unfoldable pub roll_back_sale : ℕ → Option ℕ → ℤ → Exec (Unit {0})
roll_back_sale shop_id none amount = pure tt
roll_back_sale shop_id (some sale_id) amount = do
  found ← gets (λ s. find_sale shop_id sale_id s.sales)
  save_found_sale found amount

abbrev pub save_found_purchase : Option Purchase → ℤ → Exec (Unit {0})
save_found_purchase none amount = pure tt
save_found_purchase (some purchase) amount =
    save_purchase (record purchase { paid_amount = paid_without purchase.paid_amount amount })

unfoldable pub roll_back_purchase : ℕ → Option ℕ → ℤ → Exec (Unit {0})
roll_back_purchase shop_id none amount = pure tt
roll_back_purchase shop_id (some purchase_id) amount = do
  found ← gets (λ s. find_purchase shop_id purchase_id s.purchases)
  save_found_purchase found amount

unfoldable pub void_payment : ℕ → ℕ → Exec (Unit {0})
void_payment shop_id payment_id = do
  found ← gets (λ s. find_payment shop_id payment_id s.payments)
  payment ← or_raise found Error.payment_not_found
  roll_back_sale shop_id payment.sale_id payment.amount
  roll_back_purchase shop_id payment.purchase_id payment.amount
  delete_postings_for_reference shop_id payment.id none
  modify (λ s. record s { payments = reject (λ p. p.id == payment.id) s.payments })
