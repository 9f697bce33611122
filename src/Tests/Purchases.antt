-- ===== src/Tests/Purchases.antt =====
-- A purchase into an empty shop, its void, and a return against it.
use kapra_os.Prelude.{ℕ, ◌≡◌, refl, true, none, some, List, [], ◌∷◌, pos, ◌+ℤ◌, ◌-ℤ◌}
use kapra_os.Decimal.{mills}
use kapra_os.Tables.{Db, Purchase, PurchaseItem, PurchaseReturn}
use kapra_os.Inventory.Rows.{on_hand}
use kapra_os.Purchases.Create.{create_purchase}
use kapra_os.Purchases.Created.{IsTotalled, create_purchase-IsTotalled}
use kapra_os.Purchases.Void.{find_purchase, delete_purchase}
use kapra_os.Purchases.Stock.{received, create_purchase-stock, delete_purchase-stock}
use kapra_os.Returns.OfSale.{ReturnRequest}
use kapra_os.Returns.OfPurchase.{create_purchase_return}
use kapra_os.Returns.Sent.{sent_back, create_purchase_return-stock}
use kapra_os.Tests.Evaluation.{evaluation}
use kapra_os.Tests.Shop.{shop, purchase_request, state_of, value_of, is_ok, ran}

abbrev some_purchase : Purchase
some_purchase = record {
  id = 0;
  shop_id = 0;
  supplier_id = 0;
  invoice_number = none;
  subtotal = pos 0;
  discount = pos 0;
  total = pos 0;
  paid_amount = pos 0;
  created_at = 0;
  items = [];
}

abbrev delivery : Purchase
delivery = value_of (create_purchase purchase_request shop) some_purchase

abbrev delivered : Db
delivered = state_of (create_purchase purchase_request shop) shop

delivery_ok : is_ok (create_purchase purchase_request shop) ≡ true
unfolding evaluation
delivery_ok = refl

create_purchase-stock_example :
    on_hand 20 delivered.inventory ≡ on_hand 20 shop.inventory +ℤ received 20 delivery.items
create_purchase-stock_example =
    create_purchase-stock 20 purchase_request shop delivered delivery
      (ran (create_purchase purchase_request shop) some_purchase shop delivery_ok)

abbrev emptied : Db
emptied = state_of (delete_purchase 1 delivery.id delivered) delivered

void_ok : is_ok (delete_purchase 1 delivery.id delivered) ≡ true
unfolding evaluation
void_ok = refl

delivery-IsStored : find_purchase 1 delivery.id delivered.purchases ≡ some delivery
unfolding evaluation
delivery-IsStored = refl

delete_purchase-stock_example :
    on_hand 20 emptied.inventory ≡ on_hand 20 delivered.inventory -ℤ received 20 delivery.items
delete_purchase-stock_example =
    delete_purchase-stock 20 1 delivery.id delivered emptied delivery delivery-IsStored
      (ran (delete_purchase 1 delivery.id delivered) tt delivered void_ok)

create_purchase-IsTotalled_example : IsTotalled delivery
create_purchase-IsTotalled_example =
    create_purchase-IsTotalled purchase_request shop delivered delivery
      (ran (create_purchase purchase_request shop) some_purchase shop delivery_ok)

abbrev first_item : List PurchaseItem → ℕ
first_item [] = 0
first_item (x ∷ items) = x.id

-- One metre goes back to the supplier.
abbrev send_request : ReturnRequest
send_request = record {
  shop_id = 1;
  document_id = delivery.id;
  lines = record { item_id = first_item delivery.items; quantity = mills (pos 1000) } ∷ [];
  notes = none;
}

abbrev some_purchase_return : PurchaseReturn
some_purchase_return = record {
  id = 0;
  shop_id = 0;
  purchase_id = 0;
  supplier_id = 0;
  total_amount = pos 0;
  notes = none;
  created_at = 0;
  items = [];
}

send_ok : is_ok (create_purchase_return send_request delivered) ≡ true
unfolding evaluation
send_ok = refl

abbrev sent : PurchaseReturn
sent = value_of (create_purchase_return send_request delivered) some_purchase_return

abbrev reduced : Db
reduced = state_of (create_purchase_return send_request delivered) delivered

create_purchase_return-stock_example :
    on_hand 20 reduced.inventory ≡ on_hand 20 delivered.inventory -ℤ sent_back 20 sent.items
create_purchase_return-stock_example =
    create_purchase_return-stock 20 send_request delivered reduced sent
      (ran (create_purchase_return send_request delivered) some_purchase_return delivered send_ok)
