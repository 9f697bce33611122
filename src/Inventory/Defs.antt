-- ===== src/Inventory/Defs.antt =====
-- The operations of backend/app/services/inventory.py. A row lock makes concurrent transactions
-- wait and changes no value, so it is not part of the model of one transaction.
use kapra_os.Prelude.{
  ℕ, String, Bool, ◌==◌, if◌then◌else◌, ◌&&◌, Option, none, some, List, [], ◌∷◌, ◌++◌, ℤ, pos, ◌+ℤ◌,
  ◌-ℤ◌, ltb_ℤ, leb_ℤ, eqb_ℤ, not,
}
use kapra_os.Decimal.{
  Decimal, cents, mills, ten_thousandths, mul, add, sub, quantize, quantity_scale,
}
use kapra_os.Decimal.Division.{divide}
use kapra_os.Tables.{Owned, Inventory, InventoryMovement, InventoryMovementType, Reference}
use kapra_os.Session.{Error, Exec, pure, gets, or_raise, modify, guard, ◌>>=◌, ◌>>◌}

-- The row with this id, if the shop owns it.
unfoldable pub find_owned : ℕ → ℕ → List Owned → Option Owned
find_owned shop_id id [] = none
find_owned shop_id id (r ∷ rows) =
    if r.id == id && r.shop_id == shop_id then some r else find_owned shop_id id rows

unfoldable pub get_variant : ℕ → ℕ → Exec Owned
get_variant shop_id variant_id = do
  found ← gets (λ s. find_owned shop_id variant_id s.variants)
  or_raise found Error.variant_not_found

unfoldable pub find_inventory : ℕ → List Inventory → Option Inventory
find_inventory v [] = none
find_inventory v (r ∷ rows) = if r.variant_id == v then some r else find_inventory v rows

-- A new row has the defaults of the columns.
abbrev pub new_inventory : ℕ → Inventory
new_inventory v = record {
  variant_id = v;
  quantity = pos 0;
  reserved_quantity = pos 0;
  weighted_average_cost = pos 0;
}

-- INSERT ... ON CONFLICT (variant_id) DO NOTHING
unfoldable pub insert_inventory : ℕ → List Inventory → List Inventory
insert_inventory v [] = new_inventory v ∷ []
insert_inventory v (r ∷ rows) =
    let others = insert_inventory v rows in if r.variant_id == v then r ∷ rows else r ∷ others

-- The flush of a changed row.
unfoldable pub put_inventory : Inventory → List Inventory → List Inventory
put_inventory row [] = []
put_inventory row (r ∷ rows) =
    let others = put_inventory row rows in
    if r.variant_id == row.variant_id then row ∷ rows else r ∷ others

unfoldable pub lock_inventory : ℕ → Exec Inventory
unfolding insert_inventory
lock_inventory variant_id = do
  modify (λ s. record s { inventory = insert_inventory variant_id s.inventory })
  found ← gets (λ s. find_inventory variant_id s.inventory)
  or_raise found Error.key_error

unfoldable pub save_inventory : Inventory → Exec (Unit {0})
save_inventory row = modify (λ s. record s { inventory = put_inventory row s.inventory })

unfoldable pub get_or_create_inventory : ℕ → ℕ → Exec Inventory
get_or_create_inventory shop_id variant_id = do
  get_variant shop_id variant_id
  lock_inventory variant_id

unfoldable pub get_weighted_average_cost : ℕ → ℕ → Exec ℤ
get_weighted_average_cost shop_id variant_id = do
  get_variant shop_id variant_id
  inventory ← lock_inventory variant_id
  pure inventory.weighted_average_cost

-- `Inventory.available_quantity`
abbrev pub available_quantity : Inventory → ℤ
available_quantity row = row.quantity -ℤ row.reserved_quantity

-- `old_quantity * weighted_average_cost + quantity * unit_cost`
unfoldable pub total_value : ℤ → ℤ → ℤ → ℤ → Decimal
total_value old_quantity average quantity unit_cost =
    add (mul (mills old_quantity) (ten_thousandths average))
      (mul (mills quantity) (cents unit_cost))

-- The new average of `_apply_receipt_cost`.
unfoldable pub receipt_average : ℤ → ℤ → ℤ → ℤ → Option ℤ
unfolding total_value
receipt_average old_quantity average quantity unit_cost =
    elim (divide (total_value old_quantity average quantity unit_cost)
      (mills (old_quantity +ℤ quantity))) [ none ↦ none | some d ↦ some (quantize 4 d) ]

unfoldable pub apply_receipt_cost : Inventory → ℤ → ℤ → Exec Inventory
apply_receipt_cost inventory quantity unit_cost = do
  average ←
      or_raise
        (receipt_average inventory.quantity inventory.weighted_average_cost quantity unit_cost)
        Error.value_error
  pure (record inventory { weighted_average_cost = average })

-- The keyword arguments of `add_stock` and `remove_stock`, which get whole thousandths from every caller.
pub record Change : Type 0 where
  pub shop_id : ℕ
  pub variant_id : ℕ
  pub quantity : ℤ
  pub movement_type : InventoryMovementType
  pub unit_cost : Option ℤ
  pub reference_type : Option Reference
  pub reference_id : Option ℕ
  pub notes : Option String

-- `session.add` of the movement row of a change, with its signed quantity.
unfoldable pub add_movement : Change → ℤ → Exec InventoryMovement
add_movement c quantity = do
  let movement : InventoryMovement = record {
    shop_id = c.shop_id;
    variant_id = c.variant_id;
    movement_type = c.movement_type;
    quantity = quantity;
    unit_cost = c.unit_cost;
    reference_type = c.reference_type;
    reference_id = c.reference_id;
    notes = c.notes;
  }
  modify (λ s. record s { movements = s.movements ++ movement ∷ [] })
  pure movement

unfoldable pub with_receipt_cost : Inventory → ℤ → Option ℤ → Exec Inventory
with_receipt_cost inventory quantity none = pure inventory
with_receipt_cost inventory quantity (some unit_cost) =
    apply_receipt_cost inventory quantity unit_cost

unfoldable pub add_stock : Change → Exec InventoryMovement
add_stock c = do
  guard (ltb_ℤ (pos 0) c.quantity) Error.value_error
  get_variant c.shop_id c.variant_id
  locked ← lock_inventory c.variant_id
  inventory ← with_receipt_cost locked c.quantity c.unit_cost
  save_inventory (record inventory { quantity = inventory.quantity +ℤ c.quantity })
  add_movement c c.quantity

unfoldable pub remove_stock : Change → Exec InventoryMovement
remove_stock c = do
  guard (ltb_ℤ (pos 0) c.quantity) Error.value_error
  get_variant c.shop_id c.variant_id
  inventory ← lock_inventory c.variant_id
  guard (leb_ℤ c.quantity (available_quantity inventory)) Error.insufficient_stock
  save_inventory (record inventory { quantity = inventory.quantity -ℤ c.quantity })
  add_movement c (pos 0 -ℤ c.quantity)

-- The keyword arguments of `adjust_stock`; the delta is signed and has any scale.
pub record Adjustment : Type 0 where
  pub shop_id : ℕ
  pub variant_id : ℕ
  pub quantity_delta : Decimal
  pub unit_cost : Option ℤ
  pub reference_type : Option Reference
  pub reference_id : Option ℕ
  pub notes : Option String

-- What a NUMERIC(14, 3) column stores of a decimal: PostgreSQL too rounds a tie away from zero.
unfoldable pub stored_quantity : Decimal → ℤ
stored_quantity d = quantize quantity_scale d

-- The movement of an adjustment, as its row is stored.
abbrev pub adjustment_change : Adjustment → Change
adjustment_change a = record {
  shop_id = a.shop_id;
  variant_id = a.variant_id;
  quantity = stored_quantity a.quantity_delta;
  movement_type = InventoryMovementType.adjustment;
  unit_cost = a.unit_cost;
  reference_type = a.reference_type;
  reference_id = a.reference_id;
  notes = a.notes;
}

-- `a < b`
unfoldable pub is_below : Decimal → Decimal → Bool
is_below a b = ltb_ℤ (sub a b).coefficient (pos 0)

-- `new_quantity`
unfoldable pub adjusted_quantity : Inventory → Decimal → Decimal
adjusted_quantity inventory delta = add (mills inventory.quantity) delta

-- The tests read the exact decimals; the row and the movement are rounded each for itself.
unfoldable pub adjust_stock : Adjustment → Exec InventoryMovement
unfolding stored_quantity is_below adjusted_quantity
adjust_stock a = do
  guard (not (eqb_ℤ a.quantity_delta.coefficient (pos 0))) Error.value_error
  get_variant a.shop_id a.variant_id
  inventory ← lock_inventory a.variant_id
  let new_quantity = adjusted_quantity inventory a.quantity_delta
  guard (not (is_below new_quantity (mills inventory.reserved_quantity))) Error.insufficient_stock
  save_inventory (record inventory { quantity = stored_quantity new_quantity })
  add_movement (adjustment_change a) (stored_quantity a.quantity_delta)
