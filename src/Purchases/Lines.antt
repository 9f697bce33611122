-- ===== src/Purchases/Lines.antt =====
-- Input lines of a purchase: their normalisation, merging and totals.
use kapra_os.Prelude.{ℕ, ◌==◌, if◌then◌else◌, List, [], ◌∷◌, ℤ, pos, ◌+ℤ◌, ltb_ℤ, leb_ℤ, eqb_ℤ}
use kapra_os.Decimal.{Decimal, cents, mills, mul, quantize, money_scale, quantity_scale}
use kapra_os.Session.Outcome.{Error, Result, ok, require, ◌>>=◌, ◌>>◌}

pub record PurchaseItemInput : Type 0 where
  pub variant_id : ℕ
  pub quantity : Decimal
  pub unit_cost : Decimal

pub record PurchaseLine : Type 0 where
  pub variant_id : ℕ
  pub quantity : ℤ
  pub unit_cost : ℤ
  pub total : ℤ

unfoldable pub normalise_quantity : Decimal → Result ℤ
normalise_quantity raw = do
  require (ltb_ℤ (pos 0) (quantize quantity_scale raw)) Error.invalid_purchase_item
  ok (quantize quantity_scale raw)

unfoldable pub normalise_cost : Decimal → Result ℤ
normalise_cost raw = do
  require (leb_ℤ (pos 0) (quantize money_scale raw)) Error.invalid_purchase_item
  ok (quantize money_scale raw)

unfoldable pub line_total : ℤ → ℤ → ℤ
line_total quantity unit_cost = quantize money_scale (mul (mills quantity) (cents unit_cost))

abbrev pub make_line : ℕ → ℤ → ℤ → PurchaseLine
make_line variant_id quantity unit_cost = record {
  variant_id = variant_id;
  quantity = quantity;
  unit_cost = unit_cost;
  total = line_total quantity unit_cost;
}

-- The checks of one round of the loop, up to the lookup of the variant.
unfoldable pub normalise_item : PurchaseItemInput → Result PurchaseLine
unfolding normalise_quantity normalise_cost
normalise_item item = do
  quantity ← normalise_quantity item.quantity
  unit_cost ← normalise_cost item.unit_cost
  ok (make_line item.variant_id quantity unit_cost)

-- The rest of the round: a new line, or the sum with the line of the same variant.
unfoldable pub merge_item : List PurchaseLine → PurchaseLine → Result (List PurchaseLine)
merge_item [] item = ok (item ∷ [])
merge_item (x ∷ combined) item =
    if x.variant_id == item.variant_id
    then (do
      require (eqb_ℤ x.unit_cost item.unit_cost) Error.duplicate_purchase_item
      ok (make_line item.variant_id (x.quantity +ℤ item.quantity) item.unit_cost ∷ combined))
    else (do rest ← merge_item combined item; ok (x ∷ rest))

unfoldable pub combine_from :
    List PurchaseLine → List PurchaseItemInput → Result (List PurchaseLine)
unfolding normalise_item merge_item
combine_from combined [] = ok combined
combine_from combined (item ∷ items) = do
  line ← normalise_item item
  combined' ← merge_item combined line
  combine_from combined' items

unfoldable pub combine_items : List PurchaseItemInput → Result (List PurchaseLine)
unfolding combine_from
combine_items items = combine_from [] items

-- `sum(line.total for line in combined.values())`
unfoldable pub sum_totals : List PurchaseLine → ℤ
sum_totals [] = pos 0
sum_totals (x ∷ lines) = x.total +ℤ sum_totals lines
