-- ===== src/Returns/OfSale.antt =====
-- `create_sale_return`, with the CHECK constraints of backend/app/models/returns.py.
use kapra_os.Prelude.{
  ℕ, String, Bool, true, false, ◌&&◌, Option, some, List, [], ◌∷◌, ◌++◌, ℤ, pos, ◌+ℤ◌, ◌-ℤ◌, ltb_ℤ,
  leb_ℤ, eqb_ℤ, min_ℤ, not,
}
use kapra_os.Tables.{Sale, SaleItem, SaleReturn, SaleReturnItem, Reference, InventoryMovementType}
use kapra_os.Session.{Error, Exec, pure, gets, or_raise, lift, modify, guard, ◌>>=◌, ◌>>◌, new_uuid}
use kapra_os.Inventory.{add_stock}
use kapra_os.Accounting.Posts.{post_sale_return, is_qualifying}
use kapra_os.Sales.Edit.{find_sale}
use kapra_os.Returns.Lines.{
  ReturnLineInput, Quantities, combine_lines, too_long, text_or, sale_return_text, gross_of,
}
use kapra_os.Returns.SaleLines.{
  all_found, returned_quantity, PreparedLine, prepare_lines, refund_total, cogs_total,
  remaining_due,
}

unfoldable pub get_sale_for_return : ℕ → ℕ → Exec Sale
get_sale_for_return shop_id sale_id = do
  found ← gets (λ s. find_sale shop_id sale_id s.sales)
  sale ← or_raise found Error.sale_not_found
  guard (is_qualifying sale.status) Error.sale_not_returnable
  pure sale

-- What may still be returned of each item.
unfoldable pub remaining_of : ℕ → List SaleReturn → List SaleItem → Quantities
remaining_of sale_id returns [] = []
remaining_of sale_id returns (x ∷ items) =
    (x.id, x.quantity -ℤ returned_quantity sale_id x.id returns)
    ∷ remaining_of sale_id returns items

unfoldable pub get_remaining_sale_quantities : ℕ → ℕ → Exec Quantities
get_remaining_sale_quantities shop_id sale_id = do
  sale ← get_sale_for_return shop_id sale_id
  gets (λ s. remaining_of sale.id s.sale_returns sale.items)

-- The CHECK constraints of `sale_returns`.
abbrev pub return_allowed : SaleReturn → Bool
return_allowed x =
    leb_ℤ (pos 0) x.total_amount
    && leb_ℤ (pos 0) x.ar_amount
    && leb_ℤ (pos 0) x.cash_refund
    && leb_ℤ (pos 0) x.cogs_amount
    && eqb_ℤ x.total_amount (x.ar_amount +ℤ x.cash_refund)

-- The CHECK constraints of `sale_return_items`.
abbrev pub item_allowed : SaleReturnItem → Bool
item_allowed x =
    eqb_ℤ x.total (gross_of x.unit_price x.quantity -ℤ x.discount)
    && ltb_ℤ (pos 0) x.quantity
    && leb_ℤ (pos 0) x.unit_price
    && leb_ℤ (pos 0) x.cost_price
    && leb_ℤ (pos 0) x.discount
    && leb_ℤ (pos 0) x.total

-- One returned line: its row, and its goods back into stock at their historical cost.
unfoldable pub put_line : ℕ → ℕ → String → PreparedLine → Exec SaleReturnItem
put_line shop_id return_id notes line = do
  id ← new_uuid
  let item : SaleReturnItem = record {
    id = id;
    sale_item_id = line.item.id;
    variant_id = line.item.variant_id;
    quantity = line.quantity;
    unit_price = line.item.unit_price;
    cost_price = line.item.cost_price;
    discount = line.discount;
    total = line.total;
  }
  guard (item_allowed item) Error.integrity
  add_stock (record {
    shop_id = shop_id;
    variant_id = line.item.variant_id;
    quantity = line.quantity;
    movement_type = InventoryMovementType.customer_return;
    unit_cost = some line.item.cost_price;
    reference_type = some Reference.sale_return;
    reference_id = some return_id;
    notes = some notes;
  })
  pure item

unfoldable pub put_lines : ℕ → ℕ → String → List PreparedLine → Exec (List SaleReturnItem)
put_lines shop_id return_id notes [] = pure []
put_lines shop_id return_id notes (line ∷ lines) = do
  item ← put_line shop_id return_id notes line
  items ← put_lines shop_id return_id notes lines
  pure (item ∷ items)

-- The receivable is relieved first, up to what is still due; the rest is refunded in cash.
unfoldable pub return_header :
    ℕ → Sale → ℕ → ℕ → ℤ → ℤ → ℤ → Option String → List SaleReturnItem → SaleReturn
return_header shop_id sale id now total_refund due cogs notes items = record {
  id = id;
  shop_id = shop_id;
  sale_id = sale.id;
  customer_id = sale.customer_id;
  total_amount = total_refund;
  ar_amount = min_ℤ total_refund due;
  cash_refund = total_refund -ℤ min_ℤ total_refund due;
  cogs_amount = cogs;
  notes = notes;
  created_at = now;
  items = items;
}

-- Everything that is written. The header is flushed before the lines, which read no return, so the
-- row is added with its lines.
unfoldable pub write_sale_return :
    ℕ → Sale → List PreparedLine → ℤ → Option String → Exec SaleReturn
unfolding return_header refund_total cogs_total
write_sale_return shop_id sale lines due notes = do
  id ← new_uuid
  now ← gets (λ s. s.now)
  let header = return_header shop_id sale id now (refund_total lines) due (cogs_total lines) notes
  guard (return_allowed (header [])) Error.integrity
  let text = text_or notes (sale_return_text id sale.id)
  items ← put_lines shop_id id text lines
  modify (λ s. record s { sale_returns = s.sale_returns ++ header items ∷ [] })
  post_sale_return sale id (refund_total lines) (header items).ar_amount (header items).cash_refund
      (cogs_total lines) (some text)
  pure (header items)

abbrev pub has_lines : List ReturnLineInput → Bool
has_lines [] = false
has_lines (x ∷ lines) = true

-- The keyword arguments of `create_sale_return` and `create_purchase_return`.
pub record ReturnRequest : Type 0 where
  pub shop_id : ℕ
  pub document_id : ℕ
  pub lines : List ReturnLineInput
  pub notes : Option String

-- The return against a sale that has been found.
unfoldable pub return_goods : ReturnRequest → Sale → Exec SaleReturn
return_goods r sale = do
  combined ← lift (combine_lines r.lines)
  guard (all_found sale.items combined) Error.sale_item_not_found
  returns ← gets (λ s. s.sale_returns)
  lines ← lift (prepare_lines sale returns combined)
  guard (ltb_ℤ (pos 0) (refund_total lines)) Error.invalid_return_quantity
  write_sale_return r.shop_id sale lines (remaining_due sale returns) r.notes

unfoldable pub create_sale_return : ReturnRequest → Exec SaleReturn
create_sale_return r = do
  guard (has_lines r.lines) Error.empty_return
  guard (not (too_long r.notes)) Error.invalid_return_quantity
  sale ← get_sale_for_return r.shop_id r.document_id
  return_goods r sale
