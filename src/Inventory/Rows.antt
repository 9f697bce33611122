-- ===== src/Inventory/Rows.antt =====
-- What the reads and writes of the inventory table do to a lookup, and the sums of the movements.
use kapra_os.Prelude.{
  ℕ, ◌==◌, ◌≡◌, if◌then◌else◌, Option, none, some, List, [], ◌∷◌, ◌++◌, arith, ℤ, pos, ◌+ℤ◌,
  int_laws,
}
use kapra_os.Tables.{Inventory, InventoryMovement}
use kapra_os.Inventory.Defs.{find_inventory, new_inventory, insert_inventory, put_inventory}

pub find-variant_id :
    (v : ℕ) (rows : List Inventory) (r : Inventory)
    → find_inventory v rows ≡ some r
    → r.variant_id ≡ v
unfolding find_inventory
find-variant_id v [] r h = ground arith
find-variant_id v (x ∷ rows) r h = ground (arith, find-variant_id v rows r)

abbrev pub or_new : ℕ → Option Inventory → Inventory
or_new v none = new_inventory v
or_new v (some r) = r

pub find-insert :
    (v w : ℕ) (rows : List Inventory)
    → find_inventory w (insert_inventory v rows)
      ≡ (if v == w then some (or_new v (find_inventory w rows)) else find_inventory w rows)
unfolding find_inventory insert_inventory
find-insert v w [] = ground arith
find-insert v w (x ∷ rows) = ground (arith, find-insert v w rows)

abbrev pub replaced : Inventory → Option Inventory → Option Inventory
replaced row none = none
replaced row (some _) = some row

pub find-put :
    (row : Inventory) (w : ℕ) (rows : List Inventory)
    → find_inventory w (put_inventory row rows) ≡ (
        if row.variant_id == w then replaced row (find_inventory w rows) else find_inventory w rows)
unfolding find_inventory put_inventory
find-put row w [] = ground arith
find-put row w (x ∷ rows) = ground (arith, find-put row w rows)

-- The cached level of a variant; a variant with no row has none in stock.
abbrev pub level : Option Inventory → ℤ
level none = pos 0
level (some r) = r.quantity

abbrev pub on_hand : ℕ → List Inventory → ℤ
on_hand v rows = level (find_inventory v rows)

-- The level that the movement ledger reconstructs.
unfoldable pub moved : ℕ → List InventoryMovement → ℤ
moved v [] = pos 0
moved v (m ∷ rest) =
    let others = moved v rest in if m.variant_id == v then m.quantity +ℤ others else others

pub moved-append :
    (v : ℕ) (l : List InventoryMovement) (m : InventoryMovement)
    → moved v (l ++ m ∷ []) ≡ (if m.variant_id == v then moved v l +ℤ m.quantity else moved v l)
unfolding moved
moved-append v [] m = grind int_laws
moved-append v (x ∷ l) m = grind (int_laws, moved-append v l m)
