-- ===== src/Openings/Lines.antt =====
-- The lines of an opening batch and their normalisation. The inputs are typed: quantities and costs
-- are decimals, a variant is a UUID and a status one of the two that can be posted.
use kapra_os.Prelude.{
  ℕ, ◌==◌, ltb, if◌then◌else◌, Bool, true, false, ◌&&◌, not, Option, none, some, List, [], ◌∷◌, ℤ,
  pos, ◌+ℤ◌, ltb_ℤ, eqb_ℤ,
}
use kapra_os.Decimal.{Decimal, cents, mills, mul, sub, quantize, money_scale, quantity_scale}
use kapra_os.Tables.{OpeningInventoryCostStatus, OpeningInventoryEntry, OpeningInventoryBatch, Text}
use kapra_os.Session.Outcome.{Error, Result, ok, err, require, ◌>>=◌, ◌>>◌}
use kapra_os.Accounting.Group.{any_row, rows}
use kapra_os.Sales.InvoiceNumber.{strip, same_text}

pub record OpeningLineInput : Type 0 where
  pub variant_id : ℕ
  pub quantity : Decimal
  pub unit_cost : Option Decimal
  pub cost_status : Option OpeningInventoryCostStatus

-- `_NormalisedLine`
pub record OpeningLine : Type 0 where
  pub variant_id : ℕ
  pub quantity : ℤ
  pub unit_cost : ℤ
  pub cost_status : OpeningInventoryCostStatus
  pub value : ℤ

abbrev pub is_equal : Decimal → Decimal → Bool
is_equal a b = eqb_ℤ (sub a b).coefficient (pos 0)

-- At most three decimal places, and positive.
unfoldable pub normalise_quantity : Decimal → Result ℤ
normalise_quantity raw = do
  let quantity = quantize quantity_scale raw
  require (is_equal (mills quantity) raw) Error.invalid_opening_line
  require (ltb_ℤ (pos 0) quantity) Error.invalid_opening_line
  ok quantity

unfoldable pub normalise_cost : Option Decimal → Result ℤ
normalise_cost none = err Error.invalid_opening_line
normalise_cost (some raw) = do
  require (ltb_ℤ (pos 0) (quantize money_scale raw)) Error.invalid_opening_line
  ok (quantize money_scale raw)

unfoldable pub normalise_cost_status :
    Option OpeningInventoryCostStatus → Result OpeningInventoryCostStatus
normalise_cost_status none = err Error.invalid_opening_line
normalise_cost_status (some status) = ok status

-- `_LineParse.value`
abbrev pub line_value : ℤ → ℤ → ℤ
line_value quantity unit_cost = quantize money_scale (mul (mills quantity) (cents unit_cost))

-- `_parse_line` with `_line_error`: every fault of a line raises the same exception.
unfoldable pub normalise_line : OpeningLineInput → Result OpeningLine
unfolding normalise_quantity normalise_cost normalise_cost_status
normalise_line line = do
  quantity ← normalise_quantity line.quantity
  unit_cost ← normalise_cost line.unit_cost
  status ← normalise_cost_status line.cost_status
  ok (record {
    variant_id = line.variant_id;
    quantity = quantity;
    unit_cost = unit_cost;
    cost_status = status;
    value = line_value quantity unit_cost;
  })

-- `_normalise_lines`, after the variants seen so far.
unfoldable pub normalise_lines : List ℕ → List OpeningLineInput → Result (List OpeningLine)
unfolding normalise_line
normalise_lines seen [] = ok []
normalise_lines seen (x ∷ lines) = do
  line ← normalise_line x
  require (not (any_row (λ v. v == line.variant_id) seen)) Error.duplicate_opening_variant
  rest ← normalise_lines (line.variant_id ∷ seen) lines
  ok (line ∷ rest)

unfoldable pub normalise_idempotency_key : Text → Result Text
normalise_idempotency_key raw = do
  require (ltb 0 (rows (strip raw))) Error.invalid_opening_key
  require (not (ltb 64 (rows (strip raw)))) Error.invalid_opening_key
  ok (strip raw)

-- `str(raw).strip() or None`
abbrev pub or_none : Text → Option Text
or_none [] = none
or_none (c ∷ t) = some (c ∷ t)

unfoldable pub normalise_notes : Option Text → Result (Option Text)
normalise_notes none = ok none
normalise_notes (some raw) = do
  require (not (ltb 500 (rows (strip raw)))) Error.invalid_opening_request
  ok (or_none (strip raw))

abbrev pub is_estimated : OpeningInventoryCostStatus → Bool
is_estimated OpeningInventoryCostStatus.known = false
is_estimated OpeningInventoryCostStatus.estimated = true

abbrev pub same_status : OpeningInventoryCostStatus → OpeningInventoryCostStatus → Bool
same_status OpeningInventoryCostStatus.known b = not (is_estimated b)
same_status OpeningInventoryCostStatus.estimated b = is_estimated b

-- An entry of the batch records the line.
abbrev pub records_line : OpeningLine → OpeningInventoryEntry → Bool
records_line x e =
    e.variant_id == x.variant_id
    && eqb_ℤ e.quantity x.quantity
    && eqb_ℤ e.unit_cost x.unit_cost
    && same_status e.cost_status x.cost_status

abbrev pub all_recorded : List OpeningInventoryEntry → List OpeningLine → Bool
all_recorded entries [] = true
all_recorded entries (x ∷ lines) = any_row (records_line x) entries && all_recorded entries lines

-- `_batch_matches`: equal dictionaries. Both lists name each variant once, the lines by their
-- normalisation and the entries by a unique constraint.
abbrev pub batch_matches : OpeningInventoryBatch → List OpeningLine → Bool
batch_matches batch lines = rows batch.entries == rows lines && all_recorded batch.entries lines

unfoldable pub sum_values : List OpeningLine → ℤ
sum_values [] = pos 0
sum_values (x ∷ lines) = x.value +ℤ sum_values lines

abbrev pub find_batch : ℕ → Text → List OpeningInventoryBatch → Option OpeningInventoryBatch
find_batch shop_id key [] = none
find_batch shop_id key (b ∷ batches) =
    if b.shop_id == shop_id && same_text b.idempotency_key key
    then some b
    else find_batch shop_id key batches
