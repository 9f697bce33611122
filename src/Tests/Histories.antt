-- ===== src/Tests/Histories.antt =====
-- The invariants of a history at a receipt, a sale and a recount.
use kapra_os.Prelude.{◌≡◌, refl, true, none, some, [], pos, negsuc}
use kapra_os.Tables.{Db, Sale, SaleStatus, InventoryMovement, InventoryMovementType, Reference}
use kapra_os.Decimal.{Decimal}
use kapra_os.Inventory.{add_stock, adjust_stock, Adjustment}
use kapra_os.Inventory.Rows.{on_hand, moved}
use kapra_os.Sales.Create.{create_sale}
use kapra_os.Accounting.Books.Sums.{IsBalanced}
use kapra_os.History.Steps.{Reach, here, next, stock_added, stock_adjusted, sale_created, IsFresh}
use kapra_os.History.Reached.{Reach-IsBalanced}
use kapra_os.Tests.Evaluation.{evaluation}
use kapra_os.Tests.Shop.{shop, receipt, request, state_of, value_of, is_ok, ran}
use kapra_os.Session.{ok}

abbrev pub stocked : Db
stocked = state_of (add_stock receipt shop) shop

abbrev pub sold : Db
sold = state_of (create_sale request stocked) stocked

abbrev pub some_movement : InventoryMovement
some_movement = record {
  shop_id = 0;
  variant_id = 0;
  movement_type = InventoryMovementType.damage;
  quantity = pos 0;
  unit_cost = none;
  reference_type = none;
  reference_id = none;
  notes = none;
}

abbrev some_sale : Sale
some_sale = record {
  id = 0;
  shop_id = 0;
  customer_id = none;
  created_by_user_id = none;
  invoice_number = none;
  subtotal = pos 0;
  discount = pos 0;
  total = pos 0;
  paid_amount = pos 0;
  status = SaleStatus.cancelled;
  created_at = 0;
  items = [];
}

pub shop-IsFresh : IsFresh shop
shop-IsFresh = record { no_inventory = refl; no_movements = refl; no_ledger = refl }

pub stocked_ok : is_ok (add_stock receipt shop) ≡ true
unfolding evaluation
stocked_ok = refl

pub sold_ok : is_ok (create_sale request stocked) ≡ true
unfolding evaluation
sold_ok = refl

abbrev pub bought : Sale
bought = value_of (create_sale request stocked) some_sale

pub sold-IsCreated : create_sale request stocked ≡ ok (bought, sold)
sold-IsCreated = ran (create_sale request stocked) some_sale stocked sold_ok

abbrev pub sold_history : Reach shop sold
sold_history =
    next
      (next here (stock_added receipt (ran (add_stock receipt shop) some_movement shop stocked_ok)))
      (sale_created request sold-IsCreated)

Reach-IsBalanced_example : IsBalanced sold
Reach-IsBalanced_example = Reach-IsBalanced shop-IsFresh sold_history

-- A count that finds 0.5004 metres less, and one that asks for half a thousandth less.
abbrev recount : Decimal → Adjustment
recount delta = record {
  shop_id = 1;
  variant_id = 20;
  quantity_delta = delta;
  unit_cost = none;
  reference_type = some Reference.adjustment;
  reference_id = none;
  notes = none;
}

abbrev half_metre : Adjustment
half_metre = recount (record { coefficient = negsuc 5003; places = 4 })

abbrev counted : Db
counted = state_of (adjust_stock half_metre sold) sold

counted_ok : is_ok (adjust_stock half_metre sold) ≡ true
unfolding evaluation
counted_ok = refl

counted_level : on_hand 20 counted.inventory ≡ pos 7000
unfolding evaluation
counted_level = refl

abbrev counted_history : Reach shop counted
counted_history =
    next sold_history
      (stock_adjusted half_metre (ran (adjust_stock half_metre sold) some_movement sold counted_ok))

-- The row stays as it is, and the movement takes a thousandth.
abbrev half_thousandth : Adjustment
half_thousandth = recount (record { coefficient = negsuc 4; places = 4 })

abbrev drifted : Db
drifted = state_of (adjust_stock half_thousandth sold) sold

drifted_level : (on_hand 20 drifted.inventory ≡ pos 7500) × (moved 20 drifted.movements ≡ pos 7499)
unfolding evaluation moved
drifted_level = (refl, refl)
