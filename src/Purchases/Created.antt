-- ===== src/Purchases/Created.antt =====
-- The totals of the purchase that `create_purchase` returns.
use kapra_os.Prelude.{
  ℕ, ◌≡◌, refl, List, [], ◌∷◌, ℤ, pos, ◌+ℤ◌, ◌-ℤ◌, ◌≤ℤ◌, ◌&&◌, true, arith, leb_ℤ,
}
use kapra_os.Decimal.{quantize, money_scale}
use kapra_os.Tables.{Db, Purchase, PurchaseItem}
use kapra_os.Session.{ok}
use kapra_os.Session.Keeps.{After-ok}
use kapra_os.Session.Values.{Returns, Returns-pure, Returns-skip, Returns-bind, Returns-guard}
use kapra_os.Purchases.Lines.{PurchaseLine, sum_totals}
use kapra_os.Purchases.Create.{
  PurchaseRequest, receive_line, receive_lines, purchase_header, write_purchase, create_purchase,
}

-- The sum of the stored line totals.
unfoldable pub item_totals : List PurchaseItem → ℤ
item_totals [] = pos 0
item_totals (x ∷ items) = x.total +ℤ item_totals items

-- The header agrees with its lines, and with the money already paid.
pub record IsTotalled (x : Purchase) : Type 0 where
  pub lines : item_totals x.items ≡ x.subtotal
  pub total : x.total ≡ x.subtotal -ℤ x.discount
  pub paid : (pos 0 ≤ℤ x.paid_amount) × (x.paid_amount ≤ℤ x.total)

receive_line-total :
    (shop_id purchase_id : ℕ) (line : PurchaseLine)
    → Returns (receive_line shop_id purchase_id line) (λ x. x.total ≡ line.total)
unfolding receive_line
receive_line-total shop_id purchase_id line =
    Returns-skip _ _ λ id. Returns-skip _ _ λ _. Returns-skip _ _ λ _. Returns-pure _ refl

receive_lines-totals :
    (shop_id purchase_id : ℕ) (lines : List PurchaseLine)
    → Returns
        (receive_lines shop_id purchase_id lines)
        (λ items. item_totals items ≡ sum_totals lines)
unfolding receive_lines item_totals sum_totals
receive_lines-totals shop_id purchase_id [] = Returns-pure [] refl
receive_lines-totals shop_id purchase_id (line ∷ lines) =
    Returns-bind _ _ (receive_line-total shop_id purchase_id line) λ item e.
      Returns-bind _ _ (receive_lines-totals shop_id purchase_id lines)
        λ items f. Returns-pure _ (rw (e, f) refl)

write_purchase-IsTotalled :
    (r : PurchaseRequest) (lines : List PurchaseLine) (discount paid_amount : ℤ)
    → (pos 0 ≤ℤ paid_amount) × (paid_amount ≤ℤ sum_totals lines -ℤ discount)
    → Returns (write_purchase r lines discount paid_amount) IsTotalled
unfolding write_purchase purchase_header
write_purchase-IsTotalled r lines discount paid_amount bounds = Returns-skip _ _ λ id.
    Returns-skip _ _ λ now. Returns-skip _ _ λ _.
      Returns-bind _ _ (receive_lines-totals r.shop_id id lines) λ items same. Returns-skip _ _ λ _.
        Returns-skip _ _ λ _. Returns-pure _ (record { lines = same; total = refl; paid = bounds })

within : (a b : ℤ) → (leb_ℤ (pos 0) a && leb_ℤ a b) ≡ true → (pos 0 ≤ℤ a) × (a ≤ℤ b)
within a b h = ground arith

create_purchase-Returns : (r : PurchaseRequest) → Returns (create_purchase r) IsTotalled
unfolding create_purchase
create_purchase-Returns r = Returns-skip _ _ λ _. Returns-skip _ _ λ _. Returns-skip _ _ λ lines.
    Returns-skip _ _ λ _. Returns-skip _ _ λ _. Returns-bind _ _ (Returns-guard _ _) λ _ bounded.
      write_purchase-IsTotalled r lines (quantize money_scale r.discount)
        (quantize money_scale r.paid_amount)
        (within (quantize money_scale r.paid_amount)
          (sum_totals lines -ℤ quantize money_scale r.discount) bounded)

-- The purchase that `create_purchase` returns has for subtotal the sum of its lines' totals and for
-- total the subtotal less the discount, and what is paid lies between zero and its total.
pub create_purchase-IsTotalled :
    (r : PurchaseRequest) (s t : Db) (x : Purchase) → create_purchase r s ≡ ok (x, t) → IsTotalled x
create_purchase-IsTotalled r s t x e =
    After-ok (λ y u. IsTotalled y) e ((create_purchase-Returns r).at s tt)
