-- ===== src/Session/Outcome.antt =====
-- The exceptions of the services, and functions that may raise and read no database. `integrity` is
-- the database's refusal of a row; classes of one name in two services share a constructor.
use kapra_os.Prelude.{◌≡◌, refl, ◌⊎◌, inl, inr, Bool, true, false}

pub data Error : Type 0 where
  integrity key_error value_error : Error
  shop_not_found account_not_found customer_not_found supplier_not_found variant_not_found : Error
  invalid_account_type unbalanced_posting invalid_ledger_line : Error
  invalid_statement_range invalid_pagination insufficient_stock : Error
  empty_sale invalid_sale_item invalid_sale_totals duplicate_sale_item : Error
  sale_not_found sale_not_editable sale_has_returns : Error
  empty_purchase invalid_purchase_item invalid_purchase_totals duplicate_purchase_item : Error
  purchase_not_found purchase_has_returns : Error
  expense_not_found invalid_expense_amount : Error
  empty_return invalid_return_quantity exceeds_remaining_quantity sale_not_returnable : Error
  sale_item_not_found purchase_item_not_found : Error
  sale_customer_mismatch sale_not_settleable purchase_supplier_mismatch : Error
  invalid_payment_amount payment_exceeds_outstanding payment_exceeds_due payment_not_found : Error
  empty_opening invalid_opening_key invalid_opening_request invalid_opening_line : Error
  duplicate_opening_variant variant_already_opened opening_conflict : Error

pub data Result (A : Type 0) : Type 0 where
  ok : A → Result A
  err : Error → Result A

infixl 10 ◌>>=◌ ◌>>◌
abbrev pub ◌>>=◌ : {A B : Type 0} → Result A → (A → Result B) → Result B
ok a >>= f = f a
err e >>= f = err e

abbrev pub ◌>>◌ : {A B : Type 0} → Result A → Result B → Result B
m >> k = m >>= λ _. k

abbrev pub require : Bool → Error → Result (Unit {0})
require true e = ok tt
require false e = err e

pub Result-cases :
    {A : Type 0} (r : Result A) → ((a : A) × (r ≡ ok a)) ⊎ ((e : Error) × (r ≡ err e))
Result-cases (ok a) = inl (a, refl)
Result-cases (err e) = inr (e, refl)
