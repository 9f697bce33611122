-- ===== src/Returns/PurchaseLines.antt =====
-- The lines of a supplier return: what earlier returns took, and the value of each line.
use kapra_os.Prelude.{
  ℕ, ◌==◌, if◌then◌else◌, Bool, true, false, Option, none, some, List, [], ◌∷◌, ℤ, pos, ◌+ℤ◌, ◌-ℤ◌,
  ltb_ℤ,
}
use kapra_os.Tables.{Purchase, PurchaseItem, PurchaseReturn, PurchaseReturnItem}
use kapra_os.Session.Outcome.{Error, Result, ok, err, ◌>>=◌}
use kapra_os.Returns.Lines.{Quantities, gross_of, header_share, capped}

-- `SUM(PurchaseReturnItem.quantity)` of the purchase's returns, for one item.
abbrev pub quantity_in : ℕ → List PurchaseReturnItem → ℤ
quantity_in id [] = pos 0
quantity_in id (x ∷ items) =
    let others = quantity_in id items in
    if x.purchase_item_id == id then x.quantity +ℤ others else others

unfoldable pub returned_quantity : ℕ → ℕ → List PurchaseReturn → ℤ
returned_quantity purchase_id id [] = pos 0
returned_quantity purchase_id id (x ∷ returns) =
    let others = returned_quantity purchase_id id returns in
    if x.purchase_id == purchase_id then quantity_in id x.items +ℤ others else others

abbrev pub find_item : ℕ → List PurchaseItem → Option PurchaseItem
find_item id [] = none
find_item id (x ∷ items) = if x.id == id then some x else find_item id items

-- `missing` is empty
abbrev pub all_found : List PurchaseItem → Quantities → Bool
all_found items [] = true
all_found items ((id, q) ∷ rest) = elim (find_item id items) [
  | none ↦ false
  | some x ↦ all_found items rest
]

pub record PreparedLine : Type 0 where
  pub item : PurchaseItem
  pub quantity : ℤ
  pub discount : ℤ
  pub total : ℤ

-- The values of one line: its gross amount less its share of the header discount.
unfoldable pub price_line : Purchase → PurchaseItem → ℤ → PreparedLine
unfolding gross_of header_share
price_line purchase item q =
    let gross = gross_of item.unit_cost q in
    let header = header_share purchase.discount purchase.subtotal item.total q item.quantity in
    record {
      item = item;
      quantity = q;
      discount = capped header gross;
      total = gross -ℤ capped header gross;
    }

-- One round of the loop that builds the lines.
unfoldable pub prepare_line : Purchase → List PurchaseReturn → ℕ → ℤ → Result PreparedLine
prepare_line purchase returns id q = elim (find_item id purchase.items) [
  | none ↦ err Error.purchase_item_not_found
  | some item ↦
      if ltb_ℤ (item.quantity -ℤ returned_quantity purchase.id id returns) q
      then err Error.exceeds_remaining_quantity
      else ok (price_line purchase item q)
]

unfoldable pub prepare_lines :
    Purchase → List PurchaseReturn → Quantities → Result (List PreparedLine)
unfolding prepare_line
prepare_lines purchase returns [] = ok []
prepare_lines purchase returns ((id, q) ∷ rest) = do
  line ← prepare_line purchase returns id q
  lines ← prepare_lines purchase returns rest
  ok (line ∷ lines)

unfoldable pub sum_totals : List PreparedLine → ℤ
sum_totals [] = pos 0
sum_totals (x ∷ lines) = x.total +ℤ sum_totals lines
