-- ===== src/Returns/OfPurchase.antt =====
-- `create_purchase_return`, with the CHECK constraints of backend/app/models/returns.py.
use kapra_os.Prelude.{
  ℕ, String, Bool, ◌&&◌, Option, some, List, [], ◌∷◌, ◌++◌, pos, ◌-ℤ◌, ltb_ℤ, leb_ℤ, eqb_ℤ, not,
}
use kapra_os.Tables.{
  Purchase, PurchaseItem, PurchaseReturn, PurchaseReturnItem, Reference, InventoryMovementType,
}
use kapra_os.Session.{Error, Exec, pure, gets, lift, modify, guard, ◌>>=◌, ◌>>◌, new_uuid}
use kapra_os.Inventory.{remove_stock}
use kapra_os.Accounting.Posts.{post_purchase_return}
use kapra_os.Purchases.Void.{get_purchase_for_update}
use kapra_os.Returns.Lines.{
  Quantities, combine_lines, too_long, text_or, purchase_return_text, gross_of,
}
use kapra_os.Returns.PurchaseLines.{
  returned_quantity, all_found, PreparedLine, prepare_lines, sum_totals,
}
use kapra_os.Returns.OfSale.{ReturnRequest, has_lines}

-- What may still be returned of each item.
unfoldable pub remaining_of : ℕ → List PurchaseReturn → List PurchaseItem → Quantities
remaining_of purchase_id returns [] = []
remaining_of purchase_id returns (x ∷ items) =
    (x.id, x.quantity -ℤ returned_quantity purchase_id x.id returns)
    ∷ remaining_of purchase_id returns items

unfoldable pub get_remaining_purchase_quantities : ℕ → ℕ → Exec Quantities
get_remaining_purchase_quantities shop_id purchase_id = do
  purchase ← get_purchase_for_update shop_id purchase_id
  gets (λ s. remaining_of purchase.id s.purchase_returns purchase.items)

-- The CHECK constraints of `purchase_return_items`.
abbrev pub item_allowed : PurchaseReturnItem → Bool
item_allowed x =
    eqb_ℤ x.total (gross_of x.unit_cost x.quantity -ℤ x.discount)
    && ltb_ℤ (pos 0) x.quantity
    && leb_ℤ (pos 0) x.unit_cost
    && leb_ℤ (pos 0) x.discount
    && leb_ℤ (pos 0) x.total

-- One returned line: its row, and its goods out of stock.
unfoldable pub send_line : ℕ → ℕ → String → PreparedLine → Exec PurchaseReturnItem
send_line shop_id return_id notes line = do
  id ← new_uuid
  let item : PurchaseReturnItem = record {
    id = id;
    purchase_item_id = line.item.id;
    variant_id = line.item.variant_id;
    quantity = line.quantity;
    unit_cost = line.item.unit_cost;
    discount = line.discount;
    total = line.total;
  }
  guard (item_allowed item) Error.integrity
  remove_stock (record {
    shop_id = shop_id;
    variant_id = line.item.variant_id;
    quantity = line.quantity;
    movement_type = InventoryMovementType.supplier_return;
    unit_cost = some line.item.unit_cost;
    reference_type = some Reference.purchase_return;
    reference_id = some return_id;
    notes = some notes;
  })
  pure item

unfoldable pub send_lines : ℕ → ℕ → String → List PreparedLine → Exec (List PurchaseReturnItem)
send_lines shop_id return_id notes [] = pure []
send_lines shop_id return_id notes (line ∷ lines) = do
  item ← send_line shop_id return_id notes line
  items ← send_lines shop_id return_id notes lines
  pure (item ∷ items)

-- Everything that is written. The total is positive, as the table's CHECK constraint asks.
unfoldable pub write_purchase_return :
    ℕ → Purchase → List PreparedLine → Option String → Exec PurchaseReturn
unfolding sum_totals
write_purchase_return shop_id purchase lines notes = do
  id ← new_uuid
  now ← gets (λ s. s.now)
  let text = text_or notes (purchase_return_text id purchase.id)
  items ← send_lines shop_id id text lines
  let purchase_return : PurchaseReturn = record {
    id = id;
    shop_id = shop_id;
    purchase_id = purchase.id;
    supplier_id = purchase.supplier_id;
    total_amount = sum_totals lines;
    notes = notes;
    created_at = now;
    items = items;
  }
  modify (λ s. record s { purchase_returns = s.purchase_returns ++ purchase_return ∷ [] })
  post_purchase_return shop_id id (sum_totals lines) (some text)
  pure purchase_return

unfoldable pub create_purchase_return : ReturnRequest → Exec PurchaseReturn
create_purchase_return r = do
  guard (has_lines r.lines) Error.empty_return
  guard (not (too_long r.notes)) Error.invalid_return_quantity
  purchase ← get_purchase_for_update r.shop_id r.document_id
  combined ← lift (combine_lines r.lines)
  guard (all_found purchase.items combined) Error.purchase_item_not_found
  returns ← gets (λ s. s.purchase_returns)
  lines ← lift (prepare_lines purchase returns combined)
  guard (ltb_ℤ (pos 0) (sum_totals lines)) Error.invalid_return_quantity
  write_purchase_return r.shop_id purchase lines r.notes
