-- ===== src/Purchases/Edit.antt =====
-- `update_purchase` of backend/app/services/purchases.py.
use kapra_os.Prelude.{
  ℕ, ◌==◌, ltb, if◌then◌else◌, Bool, ◌&&◌, Option, none, some, List, [], ◌∷◌, ℤ, pos, ◌+ℤ◌, ◌-ℤ◌,
  ltb_ℤ, leb_ℤ, not,
}
use kapra_os.Decimal.{Decimal, quantize, money_scale}
use kapra_os.Tables.{Purchase, PurchaseItem, Payment, Reference, InventoryMovementType, Text}
use kapra_os.Session.{
  Error, Result, ok, err, Exec, pure, gets, lift, modify, guard, ◌>>=◌, ◌>>◌, new_uuid,
}
use kapra_os.Inventory.{add_stock, remove_stock}
use kapra_os.Accounting.Group.{any_row, rows, delete_postings_for_reference}
use kapra_os.Accounting.Posts.{post_purchase}
use kapra_os.Sales.InvoiceNumber.{strip}
use kapra_os.Sales.Create.{or_none}
use kapra_os.Sales.Edit.{Field, insert_sorted}
use kapra_os.Purchases.Lines.{PurchaseItemInput, PurchaseLine, combine_items, sum_totals}
use kapra_os.Purchases.Create.{
  get_supplier, validate_variants, item_allowed, purchase_allowed, has_number, has_items,
}
use kapra_os.Purchases.Void.{get_purchase_for_update, assert_purchase_has_no_returns, settles}

-- The keyword arguments of `update_purchase`.
pub record PurchaseUpdate : Type 0 where
  pub items : Option (List PurchaseItemInput)
  pub supplier_id : Option ℕ
  pub invoice_number : Field Text
  pub discount : Option Decimal

abbrev pub check_supplier : ℕ → Option ℕ → Exec (Unit {0})
check_supplier shop_id none = pure tt
check_supplier shop_id (some id) = get_supplier shop_id id >> pure tt

abbrev pub chosen {ℓ} : {A : Type ℓ} → Option A → A → A
chosen none old = old
chosen (some new) old = new

unfoldable pub normalise_invoice : Option Text → Result (Option Text)
normalise_invoice none = ok none
normalise_invoice (some raw) =
    if ltb 50 (rows (strip raw))
    then err Error.invalid_purchase_totals
    else ok (or_none (strip raw))

-- Another purchase of the shop has this number.
abbrev pub clashes : ℕ → ℕ → Text → List Purchase → Bool
clashes shop_id id t purchases =
    any_row (λ x. x.shop_id == shop_id && has_number t x.invoice_number && not (x.id == id))
      purchases

abbrev pub check_number : ℕ → Purchase → Option Text → Exec (Option Text)
check_number shop_id purchase none = pure none
check_number shop_id purchase (some t) =
    if has_number t purchase.invoice_number then pure (some t) else do
      clash ← gets (λ s. clashes shop_id purchase.id t s.purchases)
      guard (not clash) Error.invalid_purchase_totals
      pure (some t)

unfoldable pub new_number : ℕ → Purchase → Field Text → Exec (Option Text)
unfolding normalise_invoice
new_number shop_id purchase Field.leave = pure purchase.invoice_number
new_number shop_id purchase (Field.assign raw) = do
  t ← lift (normalise_invoice raw)
  check_number shop_id purchase t

-- The new lines, if any are given.
abbrev pub new_lines : ℕ → Option (List PurchaseItemInput) → Exec (Option (List PurchaseLine))
new_lines shop_id none = pure none
new_lines shop_id (some items) = do
  guard (has_items items) Error.empty_purchase
  lines ← lift (combine_items items)
  validate_variants shop_id lines
  pure (some lines)

-- `old_qty`, `old_cost` and `new_map`
unfoldable pub old_quantity : ℕ → List PurchaseItem → ℤ
old_quantity v [] = pos 0
old_quantity v (x ∷ items) =
    let others = old_quantity v items in if x.variant_id == v then x.quantity +ℤ others else others

unfoldable pub old_cost : ℤ → ℕ → List PurchaseItem → ℤ
old_cost cost v [] = cost
old_cost cost v (x ∷ items) = old_cost (if x.variant_id == v then x.unit_cost else cost) v items

abbrev pub find_line : ℕ → List PurchaseLine → Option PurchaseLine
find_line v [] = none
find_line v (x ∷ lines) = if x.variant_id == v then some x else find_line v lines

abbrev pub quantity_of : Option PurchaseLine → ℤ
quantity_of none = pos 0
quantity_of (some x) = x.quantity

abbrev pub cost_of : Option PurchaseLine → ℤ → ℤ
cost_of none old = old
cost_of (some x) old = x.unit_cost

abbrev pub item_variants : List PurchaseItem → List ℕ → List ℕ
item_variants [] ids = ids
item_variants (x ∷ items) ids = insert_sorted x.variant_id (item_variants items ids)

abbrev pub line_variants : List PurchaseLine → List ℕ
line_variants [] = []
line_variants (x ∷ lines) = insert_sorted x.variant_id (line_variants lines)

-- One round of the loop over the variants: the difference comes into stock, or goes out of it.
unfoldable pub push_delta : ℕ → ℕ → ℕ → ℤ → ℤ → Exec (Unit {0})
push_delta shop_id purchase_id v delta cost =
    if ltb_ℤ (pos 0) delta
    then add_stock (record {
      shop_id = shop_id;
      variant_id = v;
      quantity = delta;
      movement_type = InventoryMovementType.purchase;
      unit_cost = some cost;
      reference_type = some Reference.purchase_edit;
      reference_id = some purchase_id;
      notes = none;
    })
      >> pure tt
    else if ltb_ℤ delta (pos 0)
    then remove_stock (record {
      shop_id = shop_id;
      variant_id = v;
      quantity = pos 0 -ℤ delta;
      movement_type = InventoryMovementType.adjustment;
      unit_cost = none;
      reference_type = some Reference.purchase_edit;
      reference_id = some purchase_id;
      notes = none;
    })
      >> pure tt
    else pure tt

unfoldable pub push_deltas :
    ℕ → ℕ → List PurchaseItem → List PurchaseLine → List ℕ → Exec (Unit {0})
unfolding old_quantity old_cost
push_deltas shop_id purchase_id items lines [] = pure tt
push_deltas shop_id purchase_id items lines (v ∷ variants) = do
  push_delta shop_id purchase_id v (quantity_of (find_line v lines) -ℤ old_quantity v items)
      (cost_of (find_line v lines) (old_cost (pos 0) v items))
  push_deltas shop_id purchase_id items lines variants

unfoldable pub make_items : List PurchaseLine → Exec (List PurchaseItem)
make_items [] = pure []
make_items (line ∷ lines) = do
  id ← new_uuid
  let item : PurchaseItem = record {
    id = id;
    variant_id = line.variant_id;
    quantity = line.quantity;
    unit_cost = line.unit_cost;
    total = line.total;
  }
  guard (item_allowed item) Error.integrity
  items ← make_items lines
  pure (item ∷ items)

unfoldable pub replace_items : ℕ → Purchase → Option (List PurchaseLine) → Exec (List PurchaseItem)
replace_items shop_id purchase none = pure purchase.items
replace_items shop_id purchase (some lines) = do
  push_deltas shop_id purchase.id purchase.items lines
      (item_variants purchase.items (line_variants lines))
  make_items lines

-- The flush of a changed purchase.
abbrev pub put_purchase : Purchase → List Purchase → List Purchase
put_purchase purchase [] = []
put_purchase purchase (x ∷ purchases) =
    let others = put_purchase purchase purchases in
    if x.id == purchase.id then purchase ∷ purchases else x ∷ others

unfoldable pub save_purchase : Purchase → Exec (Unit {0})
save_purchase purchase = do
  guard (purchase_allowed purchase) Error.integrity
  modify (λ s. record s { purchases = put_purchase purchase s.purchases })

-- The payments of the purchase follow its supplier.
abbrev pub follow_supplier : Purchase → Option ℕ → List Payment → List Payment
follow_supplier purchase supplier [] = []
follow_supplier purchase supplier (p ∷ payments) =
    (if settles purchase p then record p { supplier_id = supplier } else p)
    ∷ follow_supplier purchase supplier payments

abbrev pub move_payments : Purchase → Option ℕ → Exec (Unit {0})
move_payments purchase none = pure tt
move_payments purchase (some id) =
    modify (λ s. record s { payments = follow_supplier purchase (some id) s.payments })

abbrev pub chosen_discount : Option Decimal → ℤ → ℤ
chosen_discount none old = old
chosen_discount (some raw) old = quantize money_scale raw

abbrev pub chosen_subtotal : Option (List PurchaseLine) → ℤ → ℤ
chosen_subtotal none old = old
chosen_subtotal (some lines) old = sum_totals lines

unfoldable pub update_purchase : ℕ → ℕ → PurchaseUpdate → Exec Purchase
update_purchase shop_id purchase_id u = do
  purchase ← get_purchase_for_update shop_id purchase_id
  assert_purchase_has_no_returns purchase.id
  check_supplier shop_id u.supplier_id
  number ← new_number shop_id purchase u.invoice_number
  lines ← new_lines shop_id u.items
  let discount = chosen_discount u.discount purchase.discount
  let subtotal = chosen_subtotal lines purchase.subtotal
  guard (leb_ℤ (pos 0) discount && leb_ℤ discount subtotal) Error.invalid_purchase_totals
  guard (leb_ℤ purchase.paid_amount (subtotal -ℤ discount)) Error.invalid_purchase_totals
  items ← replace_items shop_id purchase lines
  let updated : Purchase = record purchase {
    supplier_id = chosen u.supplier_id purchase.supplier_id;
    invoice_number = number;
    subtotal = subtotal;
    discount = discount;
    total = subtotal -ℤ discount;
    items = items;
  }
  save_purchase updated
  move_payments purchase u.supplier_id
  delete_postings_for_reference shop_id purchase.id (some (Reference.purchase ∷ []))
  post_purchase updated none
  pure updated
