-- ===== src/Sales/Create.antt =====
-- `create_sale` of backend/app/services/sales.py, with the CHECK and UNIQUE constraints of
-- backend/app/models/sale.py that the flush meets.
use kapra_os.Prelude.{
  ℕ, ◌+◌, ◌==◌, ltb, if◌then◌else◌, Bool, true, false, ◌&&◌, Option, none, some, List, [], ◌∷◌,
  ◌++◌, ℤ, pos, ◌-ℤ◌, ltb_ℤ, leb_ℤ, eqb_ℤ, not,
}
use kapra_os.Decimal.{Decimal, ten_thousandths, quantize, money_scale}
use kapra_os.Tables.{
  Owned, Sale, SaleItem, SaleStatus, Payment, Reference, InventoryMovementType, Text,
}
use kapra_os.Session.{
  Error, Result, Exec, ok, err, pure, gets, or_raise, lift, modify, guard, ◌>>=◌, ◌>>◌, new_uuid,
}
use kapra_os.Inventory.{find_owned, get_weighted_average_cost, remove_stock}
use kapra_os.Accounting.Group.{any_row, rows}
use kapra_os.Accounting.Posts.{post_sale, post_cogs}
use kapra_os.Sales.InvoiceNumber.{strip, text_in, max_sequence, first_free}
use kapra_os.Sales.Lines.{
  SaleItemInput, PaymentInput, NormalisedItem, NormalisedPayment, normalise_money, gross,
  combine_items, sum_totals, normalise_payments, sum_payments,
}

-- The keyword arguments of `create_sale`.
pub record SaleRequest : Type 0 where
  pub shop_id : ℕ
  pub items : List SaleItemInput
  pub customer_id : Option ℕ
  pub invoice_number : Option Text
  pub discount : Decimal
  pub payments : List PaymentInput
  pub created_by_user_id : Option ℕ

-- `session.get(Shop, shop_id)`
unfoldable pub get_shop : ℕ → Exec (Unit {0})
get_shop shop_id = do
  found ← gets (λ s. any_row (λ id. id == shop_id) s.shops)
  guard found Error.shop_not_found

unfoldable pub get_customer : ℕ → ℕ → Exec Owned
get_customer shop_id customer_id = do
  found ← gets (λ s. find_owned shop_id customer_id s.customers)
  or_raise found Error.customer_not_found

abbrev pub get_customer_if : ℕ → Option ℕ → Exec (Unit {0})
get_customer_if shop_id none = pure tt
get_customer_if shop_id (some customer_id) = get_customer shop_id customer_id >> pure tt

abbrev pub owns : ℕ → List Owned → ℕ → Bool
owns shop_id variants id = any_row (λ v. v.id == id && v.shop_id == shop_id) variants

-- `missing` is empty
unfoldable pub all_owned : ℕ → List Owned → List NormalisedItem → Bool
all_owned shop_id variants [] = true
all_owned shop_id variants (x ∷ lines) =
    owns shop_id variants x.variant_id && all_owned shop_id variants lines

unfoldable pub validate_variants : ℕ → List NormalisedItem → Exec (Unit {0})
unfolding all_owned
validate_variants shop_id lines = do
  valid ← gets (λ s. all_owned shop_id s.variants lines)
  guard valid Error.variant_not_found

abbrev pub or_none : Text → Option Text
or_none [] = none
or_none (c ∷ t) = some (c ∷ t)

-- Blank means none; more than 50 characters are refused.
unfoldable pub normalise_invoice : Option Text → Result (Option Text)
normalise_invoice none = ok none
normalise_invoice (some raw) =
    if ltb 50 (rows (strip raw)) then err Error.invalid_sale_totals else ok (or_none (strip raw))

-- The invoice numbers of a shop's sales, but for empty ones.
abbrev pub number_of : Option Text → List Text
number_of none = []
number_of (some []) = []
number_of (some (c ∷ t)) = (c ∷ t) ∷ []

abbrev pub numbers_of : ℕ → List Sale → List Text
numbers_of shop_id [] = []
numbers_of shop_id (x ∷ sales) =
    let others = numbers_of shop_id sales in
    if x.shop_id == shop_id then number_of x.invoice_number ++ others else others

unfoldable pub allocate_invoice_number : ℕ → Exec Text
unfolding max_sequence first_free
allocate_invoice_number shop_id = do
  get_shop shop_id
  existing ← gets (λ s. numbers_of shop_id s.sales)
  or_raise (first_free (rows existing + 1) existing (max_sequence 0 existing + 1)) Error.value_error

abbrev pub allocate_if : ℕ → Option Text → Exec Text
allocate_if shop_id none = allocate_invoice_number shop_id
allocate_if shop_id (some t) = pure t

-- The CHECK constraints of `sale_items`.
abbrev pub item_allowed : SaleItem → Bool
item_allowed x =
    eqb_ℤ x.total (gross x.quantity x.unit_price -ℤ x.discount)
    && ltb_ℤ (pos 0) x.quantity
    && leb_ℤ (pos 0) x.unit_price
    && leb_ℤ (pos 0) x.cost_price
    && leb_ℤ (pos 0) x.discount
    && leb_ℤ (pos 0) x.total

-- The CHECK constraints of `sales`.
abbrev pub sale_allowed : Sale → Bool
sale_allowed x =
    leb_ℤ (pos 0) x.subtotal
    && leb_ℤ (pos 0) x.discount
    && leb_ℤ (pos 0) x.total
    && leb_ℤ (pos 0) x.paid_amount
    && leb_ℤ x.discount x.subtotal
    && eqb_ℤ x.total (x.subtotal -ℤ x.discount)
    && leb_ℤ x.paid_amount x.total

-- `weighted_average_cost.quantize(_COST_SCALE)`
unfoldable pub snapshot_cost : ℤ → ℤ
snapshot_cost average = quantize money_scale (ten_thousandths average)

unfoldable pub take_line : ℕ → ℕ → NormalisedItem → Exec SaleItem
unfolding snapshot_cost
take_line shop_id sale_id line = do
  average ← get_weighted_average_cost shop_id line.variant_id
  id ← new_uuid
  let item : SaleItem = record {
    id = id;
    variant_id = line.variant_id;
    quantity = line.quantity;
    unit_price = line.unit_price;
    cost_price = snapshot_cost average;
    discount = line.discount;
    total = line.total;
  }
  guard (item_allowed item) Error.integrity
  remove_stock (record {
    shop_id = shop_id;
    variant_id = line.variant_id;
    quantity = line.quantity;
    movement_type = InventoryMovementType.sale;
    unit_cost = some (snapshot_cost average);
    reference_type = some Reference.sale;
    reference_id = some sale_id;
    notes = none;
  })
  pure item

-- Step 6 of `create_sale`: the loop over the lines.
unfoldable pub take_lines : ℕ → ℕ → List NormalisedItem → Exec (List SaleItem)
take_lines shop_id sale_id [] = pure []
take_lines shop_id sale_id (line ∷ lines) = do
  item ← take_line shop_id sale_id line
  items ← take_lines shop_id sale_id lines
  pure (item ∷ items)

-- `uq_sales_shop_invoice_number`
abbrev pub number_used : ℕ → Option Text → List Sale → Bool
number_used shop_id none sales = false
number_used shop_id (some t) sales = text_in t (numbers_of shop_id sales)

-- The constraints that the flush of the header meets, at the first query of step 6.
unfoldable pub check_header : Sale → Exec (Unit {0})
check_header sale = do
  guard (sale_allowed sale) Error.integrity
  used ← gets (λ s. number_used sale.shop_id sale.invoice_number s.sales)
  guard (not used) Error.integrity

unfoldable pub insert_sale : Sale → Exec (Unit {0})
insert_sale sale = modify (λ s. record s { sales = s.sales ++ sale ∷ [] })

-- Step 7: the payment rows.
unfoldable pub add_payments : ℕ → Option ℕ → ℕ → List NormalisedPayment → Exec (Unit {0})
add_payments shop_id customer_id sale_id [] = pure tt
add_payments shop_id customer_id sale_id (p ∷ payments) = do
  id ← new_uuid
  now ← gets (λ s. s.now)
  let payment : Payment = record {
    id = id;
    shop_id = shop_id;
    customer_id = customer_id;
    supplier_id = none;
    sale_id = some sale_id;
    purchase_id = none;
    amount = p.amount;
    method = p.method;
    reference = p.reference;
    created_at = now;
  }
  modify (λ s. record s { payments = s.payments ++ payment ∷ [] })
  add_payments shop_id customer_id sale_id payments

abbrev pub is_empty {ℓ} : {A : Type ℓ} → List A → Bool
is_empty [] = true
is_empty (x ∷ l) = false

abbrev pub payment_status : ℤ → ℤ → SaleStatus
payment_status paid_amount total =
    if leb_ℤ total paid_amount then SaleStatus.completed else SaleStatus.partial

-- The header of the sale that a request makes, once its totals are checked.
unfoldable pub sale_header : SaleRequest → ℕ → Text → ℕ → ℤ → ℤ → ℤ → List SaleItem → Sale
sale_header r id number now subtotal discount paid_amount items = record {
  id = id;
  shop_id = r.shop_id;
  customer_id = r.customer_id;
  created_by_user_id = r.created_by_user_id;
  invoice_number = some number;
  subtotal = subtotal;
  discount = discount;
  total = subtotal -ℤ discount;
  paid_amount = paid_amount;
  status = payment_status paid_amount (subtotal -ℤ discount);
  created_at = now;
  items = items;
}

-- Steps 5 to 8: everything that is written. Step 6 reads no sale, so the row is added with its items.
unfoldable pub write_sale :
    SaleRequest → Option Text → List NormalisedItem → ℤ → List NormalisedPayment → Exec Sale
unfolding sale_header
write_sale r invoice lines discount payments = do
  number ← allocate_if r.shop_id invoice
  id ← new_uuid
  now ← gets (λ s. s.now)
  let header = sale_header r id number now (sum_totals lines) discount (sum_payments payments)
  check_header (header [])
  items ← take_lines r.shop_id id lines
  let sale = header items
  insert_sale sale
  add_payments r.shop_id r.customer_id id payments
  post_sale sale none
  post_cogs sale none
  pure sale

unfoldable pub create_sale : SaleRequest → Exec Sale
create_sale r = do
  guard (not (is_empty r.items)) Error.empty_sale
  invoice ← lift (normalise_invoice r.invoice_number)
  get_shop r.shop_id
  get_customer_if r.shop_id r.customer_id
  lines ← lift (combine_items r.items)
  validate_variants r.shop_id lines
  let subtotal = sum_totals lines
  let discount = normalise_money r.discount
  guard (leb_ℤ (pos 0) discount && leb_ℤ discount subtotal) Error.invalid_sale_totals
  payments ← lift (normalise_payments r.payments)
  guard (leb_ℤ (sum_payments payments) (subtotal -ℤ discount)) Error.invalid_sale_totals
  write_sale r invoice lines discount payments
