-- ===== src/Sales/Lines.antt =====
-- Input lines and payments of a sale: their normalisation, merging and totals.
use kapra_os.Prelude.{
  ℕ, String, ◌==◌, if◌then◌else◌, Option, List, [], ◌∷◌, ℤ, pos, ◌+ℤ◌, ltb_ℤ, leb_ℤ, eqb_ℤ,
}
use kapra_os.Decimal.{Decimal, cents, mills, mul, sub, quantize, money_scale, quantity_scale}
use kapra_os.Tables.{PaymentMethod}
use kapra_os.Session.Outcome.{Error, Result, ok, require, ◌>>=◌, ◌>>◌}

pub record SaleItemInput : Type 0 where
  pub variant_id : ℕ
  pub quantity : Decimal
  pub unit_price : Decimal
  pub discount : Decimal

pub record PaymentInput : Type 0 where
  pub amount : Decimal
  pub method : PaymentMethod
  pub reference : Option String

-- `cost_price` of `_NormalisedItem` keeps its default and is not read.
pub record NormalisedItem : Type 0 where
  pub variant_id : ℕ
  pub quantity : ℤ
  pub unit_price : ℤ
  pub discount : ℤ
  pub total : ℤ

unfoldable pub normalise_quantity : Decimal → Result ℤ
normalise_quantity raw = do
  require (ltb_ℤ (pos 0) (quantize quantity_scale raw)) Error.invalid_sale_item
  ok (quantize quantity_scale raw)

unfoldable pub normalise_money : Decimal → ℤ
normalise_money raw = quantize money_scale raw

-- `(quantity * unit_price).quantize(_MONEY_SCALE)`
unfoldable pub gross : ℤ → ℤ → ℤ
gross quantity unit_price = quantize money_scale (mul (mills quantity) (cents unit_price))

unfoldable pub line_total : ℤ → ℤ → ℤ → ℤ
line_total quantity unit_price discount =
    quantize money_scale (sub (mul (mills quantity) (cents unit_price)) (cents discount))

abbrev pub make_line : ℕ → ℤ → ℤ → ℤ → NormalisedItem
make_line variant_id quantity unit_price discount = record {
  variant_id = variant_id;
  quantity = quantity;
  unit_price = unit_price;
  discount = discount;
  total = line_total quantity unit_price discount;
}

-- The checks of one round of the loop, up to the lookup of the variant.
unfoldable pub normalise_item : SaleItemInput → Result NormalisedItem
unfolding normalise_money normalise_quantity
normalise_item item = do
  quantity ← normalise_quantity item.quantity
  let unit_price = normalise_money item.unit_price
  require (leb_ℤ (pos 0) unit_price) Error.invalid_sale_item
  let discount = normalise_money item.discount
  require (leb_ℤ (pos 0) discount) Error.invalid_sale_item
  require (leb_ℤ discount (gross quantity unit_price)) Error.invalid_sale_item
  ok (make_line item.variant_id quantity unit_price discount)

-- The rest of the round: a new line, or the sum with the line of the same variant.
unfoldable pub merge_item : List NormalisedItem → NormalisedItem → Result (List NormalisedItem)
merge_item [] item = ok (item ∷ [])
merge_item (x ∷ combined) item =
    if x.variant_id == item.variant_id
    then (do
      require (eqb_ℤ x.unit_price item.unit_price) Error.duplicate_sale_item
      require (eqb_ℤ x.discount item.discount) Error.duplicate_sale_item
      ok (
          make_line item.variant_id (x.quantity +ℤ item.quantity) item.unit_price item.discount
          ∷ combined))
    else (do rest ← merge_item combined item; ok (x ∷ rest))

unfoldable pub combine_from :
    List NormalisedItem → List SaleItemInput → Result (List NormalisedItem)
unfolding normalise_item merge_item
combine_from combined [] = ok combined
combine_from combined (item ∷ items) = do
  line ← normalise_item item
  combined' ← merge_item combined line
  combine_from combined' items

unfoldable pub combine_items : List SaleItemInput → Result (List NormalisedItem)
unfolding combine_from
combine_items items = combine_from [] items

-- `sum(line.total for line in combined.values())`
unfoldable pub sum_totals : List NormalisedItem → ℤ
sum_totals [] = pos 0
sum_totals (x ∷ lines) = x.total +ℤ sum_totals lines

pub record NormalisedPayment : Type 0 where
  pub amount : ℤ
  pub method : PaymentMethod
  pub reference : Option String

unfoldable pub normalise_payments : List PaymentInput → Result (List NormalisedPayment)
unfolding normalise_money
normalise_payments [] = ok []
normalise_payments (p ∷ payments) = do
  require (ltb_ℤ (pos 0) (normalise_money p.amount)) Error.invalid_sale_totals
  rest ← normalise_payments payments
  ok (
      record { amount = normalise_money p.amount; method = p.method; reference = p.reference }
      ∷ rest)

unfoldable pub sum_payments : List NormalisedPayment → ℤ
sum_payments [] = pos 0
sum_payments (p ∷ payments) = p.amount +ℤ sum_payments payments
