-- ===== src/Returns/Lines.antt =====
-- Requested return lines, and the proportional share of a discount.
use Prim.Native.String.{count, ◌++◌}
use kapra_os.Prelude.{
  ℕ, String, ◌==◌, ltb, if◌then◌else◌, Bool, false, ◌||◌, Option, none, some, List, [], ◌∷◌, ℤ, pos,
  ◌+ℤ◌, ltb_ℤ, leb_ℤ,
}
use kapra_os.Decimal.{Decimal, cents, mills, mul, quantize, money_scale, quantity_scale}
use kapra_os.Decimal.Division.{divide, mul_rounded}
use kapra_os.Tables.{uuid_text}
use kapra_os.Session.Outcome.{Error, Result, ok, require, ◌>>=◌, ◌>>◌}

-- `SaleReturnLineInput` and `PurchaseReturnLineInput`
pub record ReturnLineInput : Type 0 where
  pub item_id : ℕ
  pub quantity : Decimal

unfoldable pub normalise_quantity : Decimal → Result ℤ
normalise_quantity raw = do
  require (ltb_ℤ (pos 0) (quantize quantity_scale raw)) Error.invalid_return_quantity
  ok (quantize quantity_scale raw)

-- The quantities by item, in the order of the first line of each.
abbrev pub Quantities : Type 0
Quantities = List (ℕ × ℤ)

abbrev pub add_quantity : Quantities → ℕ → ℤ → Quantities
add_quantity [] id q = (id, q) ∷ []
add_quantity ((i, p) ∷ rest) id q =
    let later = add_quantity rest id q in if i == id then (i, p +ℤ q) ∷ rest else (i, p) ∷ later

unfoldable pub combine_from : Quantities → List ReturnLineInput → Result Quantities
unfolding normalise_quantity
combine_from combined [] = ok combined
combine_from combined (line ∷ lines) = do
  q ← normalise_quantity line.quantity
  combine_from (add_quantity combined line.item_id q) lines

unfoldable pub combine_lines : List ReturnLineInput → Result Quantities
unfolding combine_from
combine_lines lines = combine_from [] lines

-- `len(notes) > 500`
abbrev pub too_long : Option String → Bool
too_long none = false
too_long (some text) = ltb 500 (count text)

-- `notes or f"..."`: an empty note counts as none.
abbrev pub text_or : Option String → String → String
text_or none default = default
text_or (some text) default = if count text == 0 then default else text

abbrev pub sale_return_text : ℕ → ℕ → String
sale_return_text return_id sale_id =
    "Customer return " ++ (uuid_text return_id ++ (" for sale " ++ uuid_text sale_id))

abbrev pub purchase_return_text : ℕ → ℕ → String
purchase_return_text return_id purchase_id =
    "Supplier return " ++ (uuid_text return_id ++ (" for purchase " ++ uuid_text purchase_id))

-- `_money(total * (portion / whole))`; `whole` is positive, so the quotient is there.
abbrev pub share_of : ℤ → Option Decimal → ℤ
share_of total none = pos 0
share_of total (some quotient) = quantize money_scale (mul_rounded (cents total) quotient)

unfoldable pub proportional_share : ℤ → Decimal → Decimal → ℤ
proportional_share total_discount portion whole =
    if leb_ℤ whole.coefficient (pos 0) || leb_ℤ total_discount (pos 0)
    then pos 0
    else share_of total_discount (divide portion whole)

-- `_money(price * quantity)`
unfoldable pub gross_of : ℤ → ℤ → ℤ
gross_of price quantity = quantize money_scale (mul (cents price) (mills quantity))

-- The share of the header discount that falls on a line, for the quantity returned.
unfoldable pub header_share : ℤ → ℤ → ℤ → ℤ → ℤ → ℤ
unfolding proportional_share
header_share header_discount subtotal item_total quantity original =
    if leb_ℤ header_discount (pos 0) || leb_ℤ subtotal (pos 0)
    then pos 0
    else proportional_share (share_of header_discount (divide (cents item_total) (cents subtotal)))
        (mills quantity) (mills original)

-- A discount is capped by the gross amount.
abbrev pub capped : ℤ → ℤ → ℤ
capped discount gross = if ltb_ℤ gross discount then gross else discount
