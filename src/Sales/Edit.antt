-- ===== src/Sales/Edit.antt =====
-- `update_sale` and `delete_sale` of backend/app/services/sales.py.
use kapra_os.Prelude.{
  ℕ, ◌==◌, ltb, if◌then◌else◌, Bool, true, false, ◌&&◌, ◌||◌, Option, none, some, List, [], ◌∷◌, ℤ,
  pos, ◌+ℤ◌, ◌-ℤ◌, ltb_ℤ, leb_ℤ, not,
}
use kapra_os.Decimal.{Decimal}
use kapra_os.Tables.{Sale, SaleItem, Payment, Reference, InventoryMovementType, Text}
use kapra_os.Session.{Error, Exec, pure, gets, or_raise, lift, modify, guard, ◌>>=◌, ◌>>◌, new_uuid}
use kapra_os.Inventory.{Change, get_weighted_average_cost, add_stock, remove_stock}
use kapra_os.Accounting.Group.{any_row, reject, delete_postings_for_reference}
use kapra_os.Accounting.Posts.{post_sale, post_cogs, same_id, sale_payments, is_qualifying}
use kapra_os.Sales.InvoiceNumber.{same_text}
use kapra_os.Sales.Lines.{SaleItemInput, NormalisedItem, normalise_money, combine_items, sum_totals}
use kapra_os.Sales.Create.{
  get_customer_if, validate_variants, normalise_invoice, item_allowed, sale_allowed, snapshot_cost,
  is_empty, payment_status,
}

abbrev pub find_sale : ℕ → ℕ → List Sale → Option Sale
find_sale shop_id sale_id [] = none
find_sale shop_id sale_id (x ∷ sales) =
    if x.id == sale_id && x.shop_id == shop_id then some x else find_sale shop_id sale_id sales

unfoldable pub get_sale_for_update : ℕ → ℕ → Exec Sale
get_sale_for_update shop_id sale_id = do
  found ← gets (λ s. find_sale shop_id sale_id s.sales)
  or_raise found Error.sale_not_found

-- `assert_sale_has_no_returns` of backend/app/services/returns.py
unfoldable pub assert_sale_has_no_returns : ℕ → Exec (Unit {0})
assert_sale_has_no_returns sale_id = do
  returned ← gets (λ s. any_row (λ r. r.sale_id == sale_id) s.sale_returns)
  guard (not returned) Error.sale_has_returns

-- An argument with the sentinel `...` for "leave alone".
pub data Field (A : Type 0) : Type 0 where
  leave : Field A
  assign : Option A → Field A

-- The keyword arguments of `update_sale`.
pub record SaleUpdate : Type 0 where
  pub items : Option (List SaleItemInput)
  pub customer_id : Field ℕ
  pub invoice_number : Field Text
  pub discount : Option Decimal

abbrev pub chosen_customer : Field ℕ → Option ℕ → Option ℕ
chosen_customer Field.leave old = old
chosen_customer (Field.assign new) old = new

-- The check of a newly assigned customer.
abbrev pub check_customer : ℕ → Field ℕ → Exec (Unit {0})
check_customer shop_id Field.leave = pure tt
check_customer shop_id (Field.assign new) = get_customer_if shop_id new

abbrev pub same_number : Text → Option Text → Bool
same_number t none = false
same_number t (some u) = same_text t u

-- Another sale of the shop has this number.
abbrev pub clashes : ℕ → ℕ → Text → List Sale → Bool
clashes shop_id sale_id t sales =
    any_row (λ x. x.shop_id == shop_id && same_number t x.invoice_number && not (x.id == sale_id))
      sales

abbrev pub check_number : Sale → Option Text → Exec (Option Text)
check_number sale none = pure sale.invoice_number
check_number sale (some t) = if same_number t sale.invoice_number then pure (some t) else do
  clash ← gets (λ s. clashes sale.shop_id sale.id t s.sales)
  guard (not clash) Error.invalid_sale_totals
  pure (some t)

unfoldable pub new_number : Sale → Field Text → Exec (Option Text)
new_number sale Field.leave = pure sale.invoice_number
new_number sale (Field.assign raw) = do t ← lift (normalise_invoice raw); check_number sale t

-- The new lines, if any are given.
abbrev pub new_lines : ℕ → Option (List SaleItemInput) → Exec (Option (List NormalisedItem))
new_lines shop_id none = pure none
new_lines shop_id (some items) = do
  guard (not (is_empty items)) Error.empty_sale
  lines ← lift (combine_items items)
  validate_variants shop_id lines
  pure (some lines)

-- `old_qty` and `new_qty`
unfoldable pub old_quantity : ℕ → List SaleItem → ℤ
old_quantity v [] = pos 0
old_quantity v (x ∷ items) =
    let others = old_quantity v items in if x.variant_id == v then x.quantity +ℤ others else others

abbrev pub new_quantity : ℕ → List NormalisedItem → ℤ
new_quantity v [] = pos 0
new_quantity v (x ∷ lines) = if x.variant_id == v then x.quantity else new_quantity v lines

-- A sorted list with no repeats, with one more element. A UUID's text sorts as its number does.
abbrev pub insert_sorted : ℕ → List ℕ → List ℕ
insert_sorted v [] = v ∷ []
insert_sorted v (w ∷ rest) =
    let later = insert_sorted v rest in
    if ltb v w then v ∷ w ∷ rest else if v == w then w ∷ rest else w ∷ later

abbrev pub item_variants : List SaleItem → List ℕ → List ℕ
item_variants [] ids = ids
item_variants (x ∷ items) ids = insert_sorted x.variant_id (item_variants items ids)

abbrev pub line_variants : List NormalisedItem → List ℕ
line_variants [] = []
line_variants (x ∷ lines) = insert_sorted x.variant_id (line_variants lines)

abbrev pub edit_change : ℕ → ℕ → ℕ → ℤ → InventoryMovementType → Reference → Change
edit_change shop_id sale_id variant_id quantity movement_type reference = record {
  shop_id = shop_id;
  variant_id = variant_id;
  quantity = quantity;
  movement_type = movement_type;
  unit_cost = none;
  reference_type = some reference;
  reference_id = some sale_id;
  notes = none;
}

-- One round of the loop over the variants: the difference goes out of stock, or back into it.
unfoldable pub push_delta : ℕ → ℕ → ℕ → ℤ → Exec (Unit {0})
push_delta shop_id sale_id v delta =
    if ltb_ℤ (pos 0) delta
    then remove_stock
        (edit_change shop_id sale_id v delta InventoryMovementType.sale Reference.sale_edit)
      >> pure tt
    else if ltb_ℤ delta (pos 0)
    then add_stock (
        edit_change shop_id sale_id v (pos 0 -ℤ delta) InventoryMovementType.adjustment
          Reference.sale_edit)
      >> pure tt
    else pure tt

unfoldable pub push_deltas : ℕ → ℕ → List SaleItem → List NormalisedItem → List ℕ → Exec (Unit {0})
unfolding old_quantity
push_deltas shop_id sale_id items lines [] = pure tt
push_deltas shop_id sale_id items lines (v ∷ variants) = do
  push_delta shop_id sale_id v (new_quantity v lines -ℤ old_quantity v items)
  push_deltas shop_id sale_id items lines variants

-- A replaced line, with a fresh cost snapshot.
unfoldable pub snapshot_line : ℕ → NormalisedItem → Exec SaleItem
unfolding snapshot_cost
snapshot_line shop_id line = do
  average ← get_weighted_average_cost shop_id line.variant_id
  id ← new_uuid
  let item : SaleItem = record {
    id = id;
    variant_id = line.variant_id;
    quantity = line.quantity;
    unit_price = line.unit_price;
    cost_price = snapshot_cost average;
    discount = line.discount;
    total = line.total;
  }
  guard (item_allowed item) Error.integrity
  pure item

unfoldable pub snapshot_lines : ℕ → List NormalisedItem → Exec (List SaleItem)
snapshot_lines shop_id [] = pure []
snapshot_lines shop_id (line ∷ lines) = do
  item ← snapshot_line shop_id line
  items ← snapshot_lines shop_id lines
  pure (item ∷ items)

unfoldable pub replace_items : Sale → Option (List NormalisedItem) → Exec (List SaleItem)
replace_items sale none = pure sale.items
replace_items sale (some lines) = do
  push_deltas sale.shop_id sale.id sale.items lines (item_variants sale.items (line_variants lines))
  snapshot_lines sale.shop_id lines

-- The flush of a changed sale.
abbrev pub put_sale : Sale → List Sale → List Sale
put_sale sale [] = []
put_sale sale (x ∷ sales) =
    let others = put_sale sale sales in if x.id == sale.id then sale ∷ sales else x ∷ others

unfoldable pub save_sale : Sale → Exec (Unit {0})
save_sale sale = do
  guard (sale_allowed sale) Error.integrity
  modify (λ s. record s { sales = put_sale sale s.sales })

abbrev pub is_some {ℓ} : {A : Type ℓ} → Option A → Bool
is_some none = false
is_some (some a) = true

-- The payments of the sale follow its customer.
abbrev pub follow_customer : ℕ → Option ℕ → List Payment → List Payment
follow_customer sale_id customer_id [] = []
follow_customer sale_id customer_id (p ∷ payments) =
    (if same_id p.sale_id sale_id && (is_some p.customer_id || is_some customer_id)
      then record p { customer_id = customer_id }
      else p)
    ∷ follow_customer sale_id customer_id payments

abbrev pub move_payments : ℕ → Field ℕ → Exec (Unit {0})
move_payments sale_id Field.leave = pure tt
move_payments sale_id (Field.assign new) =
    modify (λ s. record s { payments = follow_customer sale_id new s.payments })

abbrev pub chosen_discount : Option Decimal → ℤ → ℤ
chosen_discount none old = old
chosen_discount (some raw) old = normalise_money raw

abbrev pub chosen_subtotal : Option (List NormalisedItem) → ℤ → ℤ
chosen_subtotal none old = old
chosen_subtotal (some lines) old = sum_totals lines

-- The ledger groups are dropped and posted again from the new figures.
unfoldable pub repost_sale : Sale → Exec (Unit {0})
repost_sale sale = do
  delete_postings_for_reference sale.shop_id sale.id
      (some (Reference.sale ∷ Reference.sale_cogs ∷ []))
  post_sale sale none
  post_cogs sale none
  pure tt

unfoldable pub update_sale : ℕ → ℕ → SaleUpdate → Exec Sale
update_sale shop_id sale_id u = do
  sale ← get_sale_for_update shop_id sale_id
  guard (is_qualifying sale.status) Error.sale_not_editable
  assert_sale_has_no_returns sale.id
  check_customer shop_id u.customer_id
  number ← new_number sale u.invoice_number
  lines ← new_lines shop_id u.items
  let discount = chosen_discount u.discount sale.discount
  let subtotal = chosen_subtotal lines sale.subtotal
  guard (leb_ℤ (pos 0) discount && leb_ℤ discount subtotal) Error.invalid_sale_totals
  guard (leb_ℤ sale.paid_amount (subtotal -ℤ discount)) Error.invalid_sale_totals
  items ← replace_items sale lines
  let updated : Sale = record sale {
    customer_id = chosen_customer u.customer_id sale.customer_id;
    invoice_number = number;
    subtotal = subtotal;
    discount = discount;
    total = subtotal -ℤ discount;
    status = payment_status sale.paid_amount (subtotal -ℤ discount);
    items = items;
  }
  save_sale updated
  move_payments sale.id u.customer_id
  repost_sale updated
  pure updated

-- The lines of a void sale go back into stock.
unfoldable pub put_back : ℕ → ℕ → List SaleItem → Exec (Unit {0})
put_back shop_id sale_id [] = pure tt
put_back shop_id sale_id (x ∷ items) = do
  add_stock (
      edit_change shop_id sale_id x.variant_id x.quantity InventoryMovementType.adjustment
        Reference.sale_void)
  put_back shop_id sale_id items

unfoldable pub delete_payment_postings : ℕ → List Payment → Exec (Unit {0})
delete_payment_postings shop_id [] = pure tt
delete_payment_postings shop_id (p ∷ payments) = do
  delete_postings_for_reference shop_id p.id none
  delete_payment_postings shop_id payments

-- The void of a sale that has been found.
unfoldable pub delete_found : ℕ → Sale → Exec (Unit {0})
delete_found shop_id sale = do
  assert_sale_has_no_returns sale.id
  put_back shop_id sale.id sale.items
  payments ← gets (λ s. sale_payments sale.shop_id sale.id s.payments)
  delete_postings_for_reference shop_id sale.id none
  delete_payment_postings shop_id payments
  modify (λ s. record s {
    payments = reject (λ p. p.shop_id == sale.shop_id && same_id p.sale_id sale.id) s.payments;
    sales = reject (λ x. x.id == sale.id) s.sales;
  })

unfoldable pub delete_sale : ℕ → ℕ → Exec (Unit {0})
delete_sale shop_id sale_id = do
  sale ← get_sale_for_update shop_id sale_id
  delete_found shop_id sale
