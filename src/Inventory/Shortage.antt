-- ===== src/Inventory/Shortage.antt =====
-- When stock may be removed.
use kapra_os.Prelude.{
  ℕ, ◌≡◌, refl, true, false, some, arith, ℤ, pos, ◌≤ℤ◌, ◌<ℤ◌, leb_ℤ, ltb_ℤ, ==_refl, inl, inr, ◌⊎◌,
  leb_ℤ→le, Bool-cases,
}
use kapra_os.Tables.{Db, Owned, Inventory, InventoryMovement}
use kapra_os.Session.{Error, ok, err, pure, raise, gets, modify, ◌>>=◌}
use kapra_os.Inventory.Defs.{
  Change, find_owned, find_inventory, get_variant, lock_inventory, save_inventory, add_movement,
  available_quantity, remove_stock,
}
use kapra_os.Inventory.Rows.{or_new, find-insert}

-- The row that an operation on the variant `v` locks.
abbrev pub locked_row : ℕ → Db → Inventory
locked_row v s = or_new v (find_inventory v s.inventory)

-- For a positive quantity of a variant that the shop owns, either it is available (the stored
-- quantity less what is reserved, nothing for a variant with no row) and remove_stock returns, or it
-- is not and remove_stock raises InsufficientStockError.
pub remove_stock-available :
    (c : Change) (variant : Owned) (s : Db)
    → ltb_ℤ (pos 0) c.quantity ≡ true
    → find_owned c.shop_id c.variant_id s.variants ≡ some variant
    → ((c.quantity ≤ℤ available_quantity (locked_row c.variant_id s))
        × (m : InventoryMovement) × (t : Db) × (remove_stock c s ≡ ok (m, t)))
      ⊎ ((available_quantity (locked_row c.variant_id s) <ℤ c.quantity)
          × (remove_stock c s ≡ err Error.insufficient_stock))
unfolding remove_stock get_variant lock_inventory save_inventory add_movement ◌>>=◌ pure raise gets
    modify
remove_stock-available c variant s positive owned = elim (Bool-cases (leb_ℤ c.quantity available)) [
  | inl e ↦
      let run : (m : InventoryMovement) × (t : Db) × (remove_stock c s ≡ ok (m, t)) =
        rw (positive, owned, find-insert, ==_refl c.variant_id, e) (_, _, refl) in
      inl (leb_ℤ→le c.quantity available e, run.0, run.1, run.2)
  | inr e ↦ inr (short e, rw (positive, owned, find-insert, ==_refl c.variant_id, e) refl)
]
  where
    available : ℤ
    available = available_quantity (locked_row c.variant_id s)

    short : leb_ℤ c.quantity available ≡ false → available <ℤ c.quantity
    short h = ground arith
