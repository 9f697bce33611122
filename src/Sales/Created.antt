-- ===== src/Sales/Created.antt =====
-- The totals of the sale that `create_sale` returns.
use kapra_os.Prelude.{ℕ, ◌≡◌, refl, ◌↔◌, Option, List, [], ◌∷◌, ℤ, pos, ◌+ℤ◌, ◌-ℤ◌, ◌≤ℤ◌, leb_ℤ→le}
use kapra_os.Tables.{Db, Sale, SaleItem, SaleStatus, Text}
use kapra_os.Session.{ok}
use kapra_os.Session.Keeps.{After-ok}
use kapra_os.Session.Values.{Returns, Returns-pure, Returns-skip, Returns-bind, Returns-guard}
use kapra_os.Sales.Lines.{
  NormalisedItem, NormalisedPayment, normalise_money, sum_totals, sum_payments,
}
use kapra_os.Sales.Create.{SaleRequest, take_line, take_lines, sale_header, write_sale, create_sale}
use kapra_os.Sales.Header.{header_completed}

-- The sum of the stored line totals.
unfoldable pub item_totals : List SaleItem → ℤ
item_totals [] = pos 0
item_totals (x ∷ items) = x.total +ℤ item_totals items

-- The header agrees with its lines and with its status.
pub record IsTotalled (x : Sale) : Type 0 where
  pub lines : item_totals x.items ≡ x.subtotal
  pub total : x.total ≡ x.subtotal -ℤ x.discount
  pub paid : x.paid_amount ≤ℤ x.total
  pub status : (x.status ≡ SaleStatus.completed) ↔ (x.paid_amount ≡ x.total)

take_line-total :
    (shop_id sale_id : ℕ) (line : NormalisedItem)
    → Returns (take_line shop_id sale_id line) (λ x. x.total ≡ line.total)
unfolding take_line
take_line-total shop_id sale_id line = Returns-skip _ _ λ average.
    Returns-skip _ _ λ id. Returns-skip _ _ λ _. Returns-skip _ _ λ _. Returns-pure _ refl

take_lines-totals :
    (shop_id sale_id : ℕ) (lines : List NormalisedItem)
    → Returns (take_lines shop_id sale_id lines) (λ items. item_totals items ≡ sum_totals lines)
unfolding take_lines item_totals sum_totals
take_lines-totals shop_id sale_id [] = Returns-pure [] refl
take_lines-totals shop_id sale_id (line ∷ lines) =
    Returns-bind _ _ (take_line-total shop_id sale_id line) λ item e.
      Returns-bind _ _ (take_lines-totals shop_id sale_id lines)
        λ items f. Returns-pure _ (rw (e, f) refl)

module _ (r : SaleRequest) (discount : ℤ) where
  sale_header-IsTotalled :
      (id : ℕ) (number : Text) (now : ℕ) (subtotal paid : ℤ) (items : List SaleItem)
      → item_totals items ≡ subtotal
      → paid ≤ℤ subtotal -ℤ discount
      → IsTotalled (sale_header r id number now subtotal discount paid items)
  unfolding sale_header
  sale_header-IsTotalled id number now subtotal paid items same bounded = record {
    lines = same;
    total = refl;
    paid = bounded;
    status = header_completed r id number now subtotal discount paid items bounded;
  }

  write_sale-IsTotalled :
      (invoice : Option Text) (lines : List NormalisedItem) (payments : List NormalisedPayment)
      → sum_payments payments ≤ℤ sum_totals lines -ℤ discount
      → Returns (write_sale r invoice lines discount payments) IsTotalled
  unfolding write_sale
  write_sale-IsTotalled invoice lines payments bounded = Returns-skip _ _ λ number.
      Returns-skip _ _ λ id. Returns-skip _ _ λ now. Returns-skip _ _ λ _.
        Returns-bind _ _ (take_lines-totals r.shop_id id lines) λ items same. Returns-skip _ _ λ _.
          Returns-skip _ _ λ _. Returns-skip _ _ λ _. Returns-skip _ _ λ _. Returns-pure _ (
            sale_header-IsTotalled id number now (sum_totals lines) (sum_payments payments) items
              same bounded)

create_sale-Returns : (r : SaleRequest) → Returns (create_sale r) IsTotalled
unfolding create_sale
create_sale-Returns r = Returns-skip _ _ λ _. Returns-skip _ _ λ invoice. Returns-skip _ _ λ _.
    Returns-skip _ _ λ _. Returns-skip _ _ λ lines. Returns-skip _ _ λ _. Returns-skip _ _ λ _.
      Returns-skip _ _ λ payments. Returns-bind _ _ (Returns-guard _ _) λ _ bounded.
        write_sale-IsTotalled r _ invoice lines payments (
          leb_ℤ→le (sum_payments payments) (sum_totals lines -ℤ normalise_money r.discount) bounded)

-- The sale that `create_sale` returns has for subtotal the sum of its lines' totals and for total
-- the subtotal less the discount, is paid no more than its total, and is COMPLETED exactly where it
-- is paid in full.
pub create_sale-IsTotalled :
    (r : SaleRequest) (s t : Db) (x : Sale) → create_sale r s ≡ ok (x, t) → IsTotalled x
create_sale-IsTotalled r s t x e =
    After-ok (λ y u. IsTotalled y) e ((create_sale-Returns r).at s tt)
