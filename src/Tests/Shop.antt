-- ===== src/Tests/Shop.antt =====
-- A shop with two variants and a customer, and a first sale.
use kapra_os.Prelude.{◌+◌, ◌≡◌, refl, Bool, true, false, none, some, [], ◌∷◌, pos, arith}
use kapra_os.Decimal.{cents, mills}
use kapra_os.Tables.{Db, InventoryMovementType, PaymentMethod}
use kapra_os.Session.{Result, ok, err}
use kapra_os.Inventory.{Change}
use kapra_os.Sales.Create.{SaleRequest}
use kapra_os.Purchases.Create.{PurchaseRequest}

abbrev pub shop : Db
shop = record {
  shops = 1 ∷ [];
  customers = record { id = 7; shop_id = 1 } ∷ [];
  suppliers = record { id = 8; shop_id = 1 } ∷ [];
  variants = record { id = 20; shop_id = 1 } ∷ record { id = 21; shop_id = 1 } ∷ [];
  inventory = [];
  movements = [];
  accounts = [];
  ledger = [];
  sales = [];
  payments = [];
  purchases = [];
  sale_returns = [];
  purchase_returns = [];
  expenses = [];
  opening_batches = [];
  uuid4 = λ n. 1000 + n;
  drawn = 0;
  now = 5;
}

-- Ten metres at 3.50.
abbrev pub receipt : Change
receipt = record {
  shop_id = 1;
  variant_id = 20;
  quantity = pos 10000;
  movement_type = InventoryMovementType.purchase;
  unit_cost = some (pos 350);
  reference_type = none;
  reference_id = none;
  notes = none;
}

-- 2.500 metres at 8.00, of which 12.00 are paid in cash and 3.00 by card.
abbrev pub request : SaleRequest
request = record {
  shop_id = 1;
  items =
      record {
        variant_id = 20;
        quantity = mills (pos 2500);
        unit_price = cents (pos 800);
        discount = cents (pos 100);
      }
      ∷ [];
  customer_id = some 7;
  invoice_number = none;
  discount = cents (pos 100);
  payments =
      record { amount = cents (pos 1200); method = PaymentMethod.cash; reference = none }
      ∷ record { amount = cents (pos 300); method = PaymentMethod.card; reference = none }
      ∷ [];
  created_by_user_id = none;
}

-- Five metres at 4.00, of which none is paid.
abbrev pub purchase_request : PurchaseRequest
purchase_request = record {
  shop_id = 1;
  supplier_id = 8;
  items = record { variant_id = 20; quantity = mills (pos 5000); unit_cost = cents (pos 400) } ∷ [];
  invoice_number = none;
  discount = cents (pos 0);
  paid_amount = cents (pos 0);
}

module _ {A : Type 0} where
  abbrev pub state_of : Result (A × Db) → Db → Db
  state_of (ok (a, t)) s = t
  state_of (err e) s = s

  abbrev pub value_of : Result (A × Db) → A → A
  value_of (ok (a, t)) d = a
  value_of (err e) d = d

  abbrev pub is_ok : Result (A × Db) → Bool
  is_ok (ok x) = true
  is_ok (err e) = false

  -- A run that returns, by its value and state.
  pub ran :
      (r : Result (A × Db)) (d : A) (s : Db) → is_ok r ≡ true → r ≡ ok (value_of r d, state_of r s)
  ran (ok (a, t)) d s h = refl
  ran (err e) d s h = ground arith
