-- ===== src/Sales/Edited.antt =====
-- The totals of the sale that `update_sale` returns.
use kapra_os.Prelude.{
  ℕ, ◌≡◌, refl, ◌↔◌, Option, none, some, List, [], ◌∷◌, arith, ℤ, ◌-ℤ◌, ◌≤ℤ◌, leb_ℤ→le, inl, inr,
  Option-cases, eq_of_parts,
}
use kapra_os.Tables.{Db, Sale, SaleStatus}
use kapra_os.Session.{ok, gets, raise, pure, ◌>>=◌}
use kapra_os.Session.Keeps.{Triple, After-ok, Triple-bind}
use kapra_os.Session.Values.{
  Returns, Returns-pure, Returns-skip, Returns-bind, Returns-guard, Triple-assume,
}
use kapra_os.Sales.Lines.{NormalisedItem, sum_totals}
use kapra_os.Sales.Create.{payment_status}
use kapra_os.Sales.Created.{item_totals, IsTotalled}
use kapra_os.Sales.Edit.{
  SaleUpdate, find_sale, get_sale_for_update, chosen_subtotal, chosen_discount, snapshot_line,
  snapshot_lines, replace_items, update_sale,
}

snapshot_line-total :
    (shop_id : ℕ) (line : NormalisedItem)
    → Returns (snapshot_line shop_id line) (λ x. x.total ≡ line.total)
unfolding snapshot_line
snapshot_line-total shop_id line =
    Returns-skip _ _ λ average. Returns-skip _ _ λ id. Returns-skip _ _ λ _. Returns-pure _ refl

snapshot_lines-totals :
    (shop_id : ℕ) (lines : List NormalisedItem)
    → Returns (snapshot_lines shop_id lines) (λ items. item_totals items ≡ sum_totals lines)
unfolding snapshot_lines item_totals sum_totals
snapshot_lines-totals shop_id [] = Returns-pure [] refl
snapshot_lines-totals shop_id (line ∷ lines) =
    Returns-bind _ _ (snapshot_line-total shop_id line) λ item e.
      Returns-bind _ _ (snapshot_lines-totals shop_id lines)
        λ items f. Returns-pure _ (rw (e, f) refl)

replace_items-totals :
    (sale : Sale) (lines : Option (List NormalisedItem))
    → item_totals sale.items ≡ sale.subtotal
    → Returns
        (replace_items sale lines)
        (λ items. item_totals items ≡ chosen_subtotal lines sale.subtotal)
unfolding replace_items
replace_items-totals sale none h = Returns-pure _ h
replace_items-totals sale (some lines) h =
    Returns-skip _ _ λ _. snapshot_lines-totals sale.shop_id lines

payment_status-completed :
    (paid total : ℤ)
    → paid ≤ℤ total
    → (payment_status paid total ≡ SaleStatus.completed) ↔ (paid ≡ total)
payment_status-completed paid total h =
    (λ e. ground (arith, eq_of_parts paid total), λ e. ground arith)

get_sale-IsTotalled :
    (shop_id sale_id : ℕ)
    → Triple
        (λ s. (x : Sale) → find_sale shop_id sale_id s.sales ≡ some x → IsTotalled x)
        (get_sale_for_update shop_id sale_id)
        (λ x t. IsTotalled x)
unfolding get_sale_for_update ◌>>=◌ gets pure raise
get_sale-IsTotalled shop_id sale_id = record {
  at = λ s h. elim (Option-cases (find_sale shop_id sale_id s.sales)) [
    | inl missing ↦ rw missing tt
    | inr (x, found) ↦ rw found (h x found)
  ];
}

update_sale-Totals :
    (shop_id sale_id : ℕ) (u : SaleUpdate)
    → Triple
        (λ s. (x : Sale) → find_sale shop_id sale_id s.sales ≡ some x → IsTotalled x)
        (update_sale shop_id sale_id u)
        (λ x t. IsTotalled x)
unfolding update_sale
update_sale-Totals shop_id sale_id u = Triple-bind _ _ (get_sale-IsTotalled shop_id sale_id) λ sale.
    Triple-assume (IsTotalled sale) λ old. Returns-skip _ _ λ _. Returns-skip _ _ λ _.
      Returns-skip _ _ λ _. Returns-skip _ _ λ number. Returns-skip _ _ λ lines.
        Returns-skip _ _ λ _. Returns-bind _ _ (Returns-guard _ _) λ _ b.
          let discount = chosen_discount u.discount sale.discount in
          let subtotal = chosen_subtotal lines sale.subtotal in
          let bounded : sale.paid_amount ≤ℤ subtotal -ℤ discount =
            leb_ℤ→le sale.paid_amount (subtotal -ℤ discount) b in
          Returns-bind _ _ (replace_items-totals sale lines old.lines) λ items same.
            Returns-skip _ _ λ _. Returns-skip _ _ λ _. Returns-skip _ _ λ _.
              Returns-pure _ (record {
                lines = same;
                total = refl;
                paid = bounded;
                status = payment_status-completed sale.paid_amount (subtotal -ℤ discount) bounded;
              })

-- If the stored sale's header agrees with its lines and its status, so does the sale that
-- `update_sale` returns: its subtotal is the sum of its lines' totals, its total the subtotal less
-- the discount, it is paid no more than its total, and COMPLETED exactly where paid in full.
pub update_sale-IsTotalled :
    (shop_id sale_id : ℕ) (u : SaleUpdate) (s t : Db) (x : Sale)
    → ((y : Sale) → find_sale shop_id sale_id s.sales ≡ some y → IsTotalled y)
    → update_sale shop_id sale_id u s ≡ ok (x, t)
    → IsTotalled x
update_sale-IsTotalled shop_id sale_id u s t x h e =
    After-ok (λ y v. IsTotalled y) e ((update_sale-Totals shop_id sale_id u).at s h)
