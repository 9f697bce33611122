-- ===== src/Returns/SaleLines.antt =====
-- The lines of a customer return: what earlier returns took, and the value of each line.
use kapra_os.Prelude.{
  ℕ, ◌==◌, if◌then◌else◌, Bool, true, false, Option, none, some, List, [], ◌∷◌, ℤ, pos, ◌+ℤ◌, ◌-ℤ◌,
  ltb_ℤ,
}
use kapra_os.Decimal.{mills}
use kapra_os.Tables.{Sale, SaleItem, SaleReturn, SaleReturnItem}
use kapra_os.Session.Outcome.{Error, Result, ok, err, ◌>>=◌}
use kapra_os.Returns.Lines.{Quantities, proportional_share, gross_of, header_share, capped}

-- `SUM(SaleReturnItem.quantity)` of the sale's returns, for one item.
abbrev pub quantity_in : ℕ → List SaleReturnItem → ℤ
quantity_in id [] = pos 0
quantity_in id (x ∷ items) =
    let others = quantity_in id items in
    if x.sale_item_id == id then x.quantity +ℤ others else others

unfoldable pub returned_quantity : ℕ → ℕ → List SaleReturn → ℤ
returned_quantity sale_id id [] = pos 0
returned_quantity sale_id id (x ∷ returns) =
    let others = returned_quantity sale_id id returns in
    if x.sale_id == sale_id then quantity_in id x.items +ℤ others else others

-- `SUM(SaleReturn.ar_amount)` of the sale's returns.
unfoldable pub previous_ar_total : ℕ → List SaleReturn → ℤ
previous_ar_total sale_id [] = pos 0
previous_ar_total sale_id (x ∷ returns) =
    let others = previous_ar_total sale_id returns in
    if x.sale_id == sale_id then x.ar_amount +ℤ others else others

abbrev pub find_item : ℕ → List SaleItem → Option SaleItem
find_item id [] = none
find_item id (x ∷ items) = if x.id == id then some x else find_item id items

-- `missing` is empty
abbrev pub all_found : List SaleItem → Quantities → Bool
all_found items [] = true
all_found items ((id, q) ∷ rest) = elim (find_item id items) [
  | none ↦ false
  | some x ↦ all_found items rest
]

pub record PreparedLine : Type 0 where
  pub item : SaleItem
  pub quantity : ℤ
  pub discount : ℤ
  pub total : ℤ
  pub cogs : ℤ

-- The values of one line: its gross amount less its share of both discounts.
unfoldable pub price_line : Sale → SaleItem → ℤ → PreparedLine
unfolding proportional_share gross_of header_share
price_line sale item q =
    let gross = gross_of item.unit_price q in
    let line_share = proportional_share item.discount (mills q) (mills item.quantity) in
    let header = header_share sale.discount sale.subtotal item.total q item.quantity in
    let discount = capped (line_share +ℤ header) gross in
    record {
      item = item;
      quantity = q;
      discount = discount;
      total = gross -ℤ discount;
      cogs = gross_of item.cost_price q;
    }

-- One round of the loop that builds the lines.
unfoldable pub prepare_line : Sale → List SaleReturn → ℕ → ℤ → Result PreparedLine
prepare_line sale returns id q = elim (find_item id sale.items) [
  | none ↦ err Error.sale_item_not_found
  | some item ↦
      if ltb_ℤ (item.quantity -ℤ returned_quantity sale.id id returns) q
      then err Error.exceeds_remaining_quantity
      else ok (price_line sale item q)
]

unfoldable pub prepare_lines : Sale → List SaleReturn → Quantities → Result (List PreparedLine)
unfolding prepare_line
prepare_lines sale returns [] = ok []
prepare_lines sale returns ((id, q) ∷ rest) = do
  line ← prepare_line sale returns id q
  lines ← prepare_lines sale returns rest
  ok (line ∷ lines)

unfoldable pub refund_total : List PreparedLine → ℤ
refund_total [] = pos 0
refund_total (x ∷ lines) = x.total +ℤ refund_total lines

unfoldable pub cogs_total : List PreparedLine → ℤ
cogs_total [] = pos 0
cogs_total (x ∷ lines) = x.cogs +ℤ cogs_total lines

-- What of the sale's due amount earlier returns have left, and at least zero.
unfoldable pub remaining_due : Sale → List SaleReturn → ℤ
unfolding previous_ar_total
remaining_due sale returns =
    let due = sale.total -ℤ sale.paid_amount -ℤ previous_ar_total sale.id returns in
    if ltb_ℤ due (pos 0) then pos 0 else due
