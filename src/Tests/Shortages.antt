-- ===== src/Tests/Shortages.antt =====
-- A removal of three metres from a shop that has ten.
use kapra_os.Prelude.{◌≡◌, ◌⊎◌, refl, none, pos, ◌≤ℤ◌, ◌<ℤ◌}
use kapra_os.Tables.{Db, InventoryMovement, InventoryMovementType}
use kapra_os.Session.{Error, ok, err}
use kapra_os.Inventory.{Change, available_quantity, remove_stock}
use kapra_os.Inventory.Shortage.{locked_row, remove_stock-available}
use kapra_os.Tests.Evaluation.{evaluation}
use kapra_os.Tests.Histories.{stocked}

abbrev breakage : Change
breakage = record {
  shop_id = 1;
  variant_id = 20;
  quantity = pos 3000;
  movement_type = InventoryMovementType.damage;
  unit_cost = none;
  reference_type = none;
  reference_id = none;
  notes = none;
}

remove_stock-available_example :
    ((pos 3000 ≤ℤ available_quantity (locked_row 20 stocked))
      × (m : InventoryMovement) × (t : Db) × (remove_stock breakage stocked ≡ ok (m, t)))
    ⊎ ((available_quantity (locked_row 20 stocked) <ℤ pos 3000)
        × (remove_stock breakage stocked ≡ err Error.insufficient_stock))
unfolding evaluation
remove_stock-available_example =
    remove_stock-available breakage (record { id = 20; shop_id = 1 }) stocked refl refl
