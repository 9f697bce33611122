-- ===== src/Purchases/Create.antt =====
-- `create_purchase` of backend/app/services/purchases.py, with the CHECK and UNIQUE constraints of
-- backend/app/models/purchase.py that the flushes meet.
use kapra_os.Prelude.{
  ℕ, ◌==◌, leb, Bool, true, false, ◌&&◌, Option, none, some, List, [], ◌∷◌, ◌++◌, ℤ, pos, ◌-ℤ◌,
  ltb_ℤ, leb_ℤ, eqb_ℤ, not,
}
use kapra_os.Decimal.{Decimal, quantize, money_scale}
use kapra_os.Tables.{Owned, Purchase, PurchaseItem, Reference, InventoryMovementType, Text}
use kapra_os.Session.{Error, Exec, pure, gets, or_raise, lift, modify, guard, ◌>>=◌, ◌>>◌, new_uuid}
use kapra_os.Inventory.{find_owned, add_stock}
use kapra_os.Accounting.Group.{any_row, rows}
use kapra_os.Accounting.Posts.{post_purchase}
use kapra_os.Sales.InvoiceNumber.{same_text}
use kapra_os.Purchases.Lines.{
  PurchaseItemInput, PurchaseLine, line_total, combine_items, sum_totals,
}

-- The keyword arguments of `create_purchase`.
pub record PurchaseRequest : Type 0 where
  pub shop_id : ℕ
  pub supplier_id : ℕ
  pub items : List PurchaseItemInput
  pub invoice_number : Option Text
  pub discount : Decimal
  pub paid_amount : Decimal

unfoldable pub get_supplier : ℕ → ℕ → Exec Owned
get_supplier shop_id supplier_id = do
  found ← gets (λ s. find_owned shop_id supplier_id s.suppliers)
  or_raise found Error.supplier_not_found

-- `missing` is empty
unfoldable pub all_owned : ℕ → List Owned → List PurchaseLine → Bool
all_owned shop_id variants [] = true
all_owned shop_id variants (x ∷ lines) =
    any_row (λ v. v.id == x.variant_id && v.shop_id == shop_id) variants
    && all_owned shop_id variants lines

unfoldable pub validate_variants : ℕ → List PurchaseLine → Exec (Unit {0})
unfolding all_owned
validate_variants shop_id lines = do
  valid ← gets (λ s. all_owned shop_id s.variants lines)
  guard valid Error.variant_not_found

-- The CHECK constraints of `purchase_items`.
abbrev pub item_allowed : PurchaseItem → Bool
item_allowed x =
    eqb_ℤ x.total (line_total x.quantity x.unit_cost)
    && ltb_ℤ (pos 0) x.quantity
    && leb_ℤ (pos 0) x.unit_cost
    && leb_ℤ (pos 0) x.total

-- The CHECK constraints of `purchases`.
abbrev pub purchase_allowed : Purchase → Bool
purchase_allowed x =
    leb_ℤ (pos 0) x.subtotal
    && leb_ℤ (pos 0) x.discount
    && leb_ℤ (pos 0) x.total
    && leb_ℤ (pos 0) x.paid_amount
    && leb_ℤ x.discount x.subtotal
    && eqb_ℤ x.total (x.subtotal -ℤ x.discount)
    && leb_ℤ x.paid_amount x.total

abbrev pub has_number : Text → Option Text → Bool
has_number t none = false
has_number t (some u) = same_text t u

-- `uq_purchases_shop_invoice_number` and the length of the column leave room for this number.
abbrev pub number_allowed : ℕ → Option Text → List Purchase → Bool
number_allowed shop_id none purchases = true
number_allowed shop_id (some t) purchases =
    leb (rows t) 50
    && not (any_row (λ x. x.shop_id == shop_id && has_number t x.invoice_number) purchases)

-- The flush of a header.
unfoldable pub check_purchase : Purchase → Exec (Unit {0})
check_purchase purchase = do
  guard (purchase_allowed purchase) Error.integrity
  free ← gets (λ s. number_allowed purchase.shop_id purchase.invoice_number s.purchases)
  guard free Error.integrity

unfoldable pub receive_line : ℕ → ℕ → PurchaseLine → Exec PurchaseItem
receive_line shop_id purchase_id line = do
  id ← new_uuid
  let item : PurchaseItem = record {
    id = id;
    variant_id = line.variant_id;
    quantity = line.quantity;
    unit_cost = line.unit_cost;
    total = line.total;
  }
  guard (item_allowed item) Error.integrity
  add_stock (record {
    shop_id = shop_id;
    variant_id = line.variant_id;
    quantity = line.quantity;
    movement_type = InventoryMovementType.purchase;
    unit_cost = some line.unit_cost;
    reference_type = some Reference.purchase;
    reference_id = some purchase_id;
    notes = none;
  })
  pure item

-- Step 6 of `create_purchase`: the loop over the lines.
unfoldable pub receive_lines : ℕ → ℕ → List PurchaseLine → Exec (List PurchaseItem)
receive_lines shop_id purchase_id [] = pure []
receive_lines shop_id purchase_id (line ∷ lines) = do
  item ← receive_line shop_id purchase_id line
  items ← receive_lines shop_id purchase_id lines
  pure (item ∷ items)

-- The header of the purchase that a request makes, once its totals are checked.
unfoldable pub purchase_header : PurchaseRequest → ℕ → ℕ → ℤ → ℤ → ℤ → List PurchaseItem → Purchase
purchase_header r id now subtotal discount paid_amount items = record {
  id = id;
  shop_id = r.shop_id;
  supplier_id = r.supplier_id;
  invoice_number = r.invoice_number;
  subtotal = subtotal;
  discount = discount;
  total = subtotal -ℤ discount;
  paid_amount = paid_amount;
  created_at = now;
  items = items;
}

-- Steps 5 to 7. The header is flushed before the lines, which read no purchase, so the row is added
-- with its lines.
unfoldable pub write_purchase : PurchaseRequest → List PurchaseLine → ℤ → ℤ → Exec Purchase
unfolding purchase_header
write_purchase r lines discount paid_amount = do
  id ← new_uuid
  now ← gets (λ s. s.now)
  check_purchase (purchase_header r id now (sum_totals lines) discount paid_amount [])
  items ← receive_lines r.shop_id id lines
  let purchase = purchase_header r id now (sum_totals lines) discount paid_amount items
  modify (λ s. record s { purchases = s.purchases ++ purchase ∷ [] })
  post_purchase purchase none
  pure purchase

abbrev pub has_items : List PurchaseItemInput → Bool
has_items [] = false
has_items (x ∷ items) = true

unfoldable pub create_purchase : PurchaseRequest → Exec Purchase
create_purchase r = do
  guard (has_items r.items) Error.empty_purchase
  get_supplier r.shop_id r.supplier_id
  lines ← lift (combine_items r.items)
  validate_variants r.shop_id lines
  let subtotal = sum_totals lines
  let discount = quantize money_scale r.discount
  guard (leb_ℤ (pos 0) discount && leb_ℤ discount subtotal) Error.invalid_purchase_totals
  let paid_amount = quantize money_scale r.paid_amount
  guard (leb_ℤ (pos 0) paid_amount && leb_ℤ paid_amount (subtotal -ℤ discount))
      Error.invalid_purchase_totals
  write_purchase r lines discount paid_amount
