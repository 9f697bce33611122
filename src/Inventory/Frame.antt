-- ===== src/Inventory/Frame.antt =====
-- The inventory service writes the inventory and its movements, and nothing else.
use kapra_os.Prelude.{ℕ, ℤ, ◌≡◌, refl, Option, none, some, List}
use kapra_os.Tables.{Db, Inventory, InventoryMovement}
use kapra_os.Session.Keeps.{Keeps, Keeps-bind, Keeps-modify, Keeps-pure, keeps_rules}
use kapra_os.Inventory.Defs.{
  Change, lock_inventory, save_inventory, add_movement, apply_receipt_cost, with_receipt_cost,
  Adjustment, get_weighted_average_cost, add_stock, remove_stock, adjust_stock,
}
use kapra_os.Inventory.Reconciled.{get_variant-keeps}

-- A property that survives any change of the inventory and its movements.
abbrev pub IgnoresStock : (Db → Type 0) → Type 0
IgnoresStock P =
    (s : Db) (inventory : List Inventory) (movements : List InventoryMovement)
    → P s
    → P (record s { inventory = inventory; movements = movements })

-- A property that reads only the ledger and the accounts.
abbrev pub ReadsBooks : (Db → Type 0) → Type 0
ReadsBooks P = (s t : Db) → s.ledger ≡ t.ledger → s.accounts ≡ t.accounts → P s → P t

pub ReadsBooks-IgnoresStock : {P : Db → Type 0} → ReadsBooks P → IgnoresStock P
ReadsBooks-IgnoresStock same s inventory movements h = same s _ refl refl h

module _ {P : Db → Type 0} (same : IgnoresStock P) where
  lock_inventory-keeps : (v : ℕ) → Keeps P (lock_inventory v)
  unfolding lock_inventory
  lock_inventory-keeps v =
      Keeps-bind _ _ (Keeps-modify _ λ s h. same s _ s.movements h) λ _. search keeps_rules

  save_inventory-keeps : (r : Inventory) → Keeps P (save_inventory r)
  unfolding save_inventory
  save_inventory-keeps r = Keeps-modify _ λ s h. same s _ s.movements h

  add_movement-keeps : (c : Change) (q : ℤ) → Keeps P (add_movement c q)
  unfolding add_movement
  add_movement-keeps c q =
      Keeps-bind _ _ (Keeps-modify _ λ s h. same s s.inventory _ h) λ _. Keeps-pure _

  with_receipt_cost-keeps :
      (r : Inventory) (q : ℤ) (unit_cost : Option ℤ) → Keeps P (with_receipt_cost r q unit_cost)
  unfolding with_receipt_cost apply_receipt_cost
  with_receipt_cost-keeps r q none = Keeps-pure r
  with_receipt_cost-keeps r q (some c) = search keeps_rules

  pub get_weighted_average_cost-keeps :
      (shop_id v : ℕ) → Keeps P (get_weighted_average_cost shop_id v)
  unfolding get_weighted_average_cost
  get_weighted_average_cost-keeps shop_id v =
      search (keeps_rules, get_variant-keeps, lock_inventory-keeps)

  pub add_stock-keeps : (c : Change) → Keeps P (add_stock c)
  unfolding add_stock
  add_stock-keeps c =
      search
        (
          keeps_rules, get_variant-keeps, lock_inventory-keeps, with_receipt_cost-keeps,
          save_inventory-keeps, add_movement-keeps,
        )
        depth 12

  pub remove_stock-keeps : (c : Change) → Keeps P (remove_stock c)
  unfolding remove_stock
  remove_stock-keeps c =
      search
        (
          keeps_rules, get_variant-keeps, lock_inventory-keeps, save_inventory-keeps,
          add_movement-keeps,
        )
        depth 12

  pub adjust_stock-keeps : (c : Adjustment) → Keeps P (adjust_stock c)
  unfolding adjust_stock
  adjust_stock-keeps c =
      search
        (
          keeps_rules, get_variant-keeps, lock_inventory-keeps, save_inventory-keeps,
          add_movement-keeps,
        )
        depth 12
