-- ===== src/Purchases/Void.antt =====
-- `delete_purchase` of backend/app/services/purchases.py.
use kapra_os.Prelude.{ℕ, ◌==◌, if◌then◌else◌, Bool, ◌&&◌, Option, none, some, List, [], ◌∷◌, not}
use kapra_os.Tables.{Purchase, PurchaseItem, Payment, Reference, InventoryMovementType}
use kapra_os.Session.{Error, Exec, pure, gets, or_raise, modify, guard, ◌>>=◌, ◌>>◌}
use kapra_os.Inventory.{remove_stock}
use kapra_os.Accounting.Group.{any_row, select, reject, delete_postings_for_reference}
use kapra_os.Accounting.Posts.{same_id}

abbrev pub find_purchase : ℕ → ℕ → List Purchase → Option Purchase
find_purchase shop_id purchase_id [] = none
find_purchase shop_id purchase_id (x ∷ purchases) =
    if x.id == purchase_id && x.shop_id == shop_id
    then some x
    else find_purchase shop_id purchase_id purchases

unfoldable pub get_purchase_for_update : ℕ → ℕ → Exec Purchase
get_purchase_for_update shop_id purchase_id = do
  found ← gets (λ s. find_purchase shop_id purchase_id s.purchases)
  or_raise found Error.purchase_not_found

-- `assert_purchase_has_no_returns` of backend/app/services/returns.py
unfoldable pub assert_purchase_has_no_returns : ℕ → Exec (Unit {0})
assert_purchase_has_no_returns purchase_id = do
  returned ← gets (λ s. any_row (λ r. r.purchase_id == purchase_id) s.purchase_returns)
  guard (not returned) Error.purchase_has_returns

-- The lines of a void purchase go out of stock again.
unfoldable pub pull_out : ℕ → ℕ → List PurchaseItem → Exec (Unit {0})
pull_out shop_id purchase_id [] = pure tt
pull_out shop_id purchase_id (x ∷ items) = do
  remove_stock (record {
    shop_id = shop_id;
    variant_id = x.variant_id;
    quantity = x.quantity;
    movement_type = InventoryMovementType.adjustment;
    unit_cost = none;
    reference_type = some Reference.purchase_void;
    reference_id = some purchase_id;
    notes = none;
  })
  pull_out shop_id purchase_id items

-- The payment belongs to the purchase.
abbrev pub settles : Purchase → Payment → Bool
settles purchase p = p.shop_id == purchase.shop_id && same_id p.purchase_id purchase.id

unfoldable pub delete_supplier_postings : ℕ → List Payment → Exec (Unit {0})
delete_supplier_postings shop_id [] = pure tt
delete_supplier_postings shop_id (p ∷ payments) = do
  delete_postings_for_reference shop_id p.id none
  delete_supplier_postings shop_id payments

-- The void of a purchase that has been found.
unfoldable pub void_purchase : ℕ → Purchase → Exec (Unit {0})
void_purchase shop_id purchase = do
  assert_purchase_has_no_returns purchase.id
  pull_out shop_id purchase.id purchase.items
  payments ← gets (λ s. select (settles purchase) s.payments)
  delete_postings_for_reference shop_id purchase.id none
  delete_supplier_postings shop_id payments
  modify (λ s. record s {
    payments = reject (settles purchase) s.payments;
    purchases = reject (λ x. x.id == purchase.id) s.purchases;
  })

unfoldable pub delete_purchase : ℕ → ℕ → Exec (Unit {0})
delete_purchase shop_id purchase_id = do
  purchase ← get_purchase_for_update shop_id purchase_id
  void_purchase shop_id purchase
