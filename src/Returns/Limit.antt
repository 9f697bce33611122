-- ===== src/Returns/Limit.antt =====
-- What a customer return leaves of the sale: the quantities and the due amount.
use kapra_os.Prelude.{
  ℕ, String, ◌==◌, ◌≡◌, refl, ◌⊎◌, inl, inr, if◌then◌else◌, Option, some, List, [], ◌∷◌, ◌++◌,
  arith, ℤ, pos, ◌+ℤ◌, ◌-ℤ◌, ◌≤ℤ◌, int_laws, ==_refl, min_ℤ, ltb_ℤ, ltb_ℤ→lt, ltb_ℤ→le, ◌<ℤ◌,
  Bool-cases,
}
use kapra_os.Tables.{Db, Sale, SaleItem, SaleReturn, SaleReturnItem}
use kapra_os.Session.{ok, pure, gets, raise, modify, ◌>>=◌}
use kapra_os.Session.Keeps.{
  Triple, After-ok, Keeps-guard, Keeps-gets, Triple-lift-bind, Triple-guard-bind, ◌▹▹◌,
}
use kapra_os.Session.Values.{Also, Triple-given}
use kapra_os.Inventory.Frame.{add_stock-keeps}
use kapra_os.Accounting.Frame.{new_uuid-keeps}
use kapra_os.Accounting.FramePosts.{post_sale_return-keeps}
use kapra_os.Accounting.Posts.{is_qualifying}
use kapra_os.Sales.Edit.{find_sale}
use kapra_os.Returns.Lines.{combine_lines}
use kapra_os.Returns.SaleLines.{
  prepare_lines, PreparedLine, find_item, quantity_in, returned_quantity, remaining_due,
  refund_total,
}
use kapra_os.Returns.Quantities.{line_quantity, prepare_lines-limit}
use kapra_os.Returns.OfSale.{
  ReturnRequest, get_sale_for_return, put_line, put_lines, return_header, write_sale_return,
  return_goods, create_sale_return,
}

-- The stored returns are `returns`.
abbrev Stored : List SaleReturn → Db → Type 0
Stored returns s = s.sale_returns ≡ returns

-- What a return line says of the prepared line.
abbrev IsRowOf : PreparedLine → SaleReturnItem → Type 0
IsRowOf line x = (x.sale_item_id ≡ line.item.id) × (x.quantity ≡ line.quantity)

put_line-IsRowOf :
    (returns : List SaleReturn) (shop_id id : ℕ) (notes : String) (line : PreparedLine)
    → Triple
        (Stored returns)
        (put_line shop_id id notes line)
        (λ x. Also (Stored returns) (IsRowOf line x))
unfolding put_line pure
put_line-IsRowOf returns shop_id id notes line = new_uuid-keeps (λ s a l d h. h) ▹▹ λ i.
    Keeps-guard _ _ ▹▹ λ _. add_stock-keeps (λ s i m h. h) _ ▹▹ λ _. record {
      at = λ s h. record { base = h; fact = (refl, refl) };
    }

put_lines-quantity :
    (returns : List SaleReturn) (shop_id id : ℕ) (notes : String) (lines : List PreparedLine)
    → Triple
        (Stored returns)
        (put_lines shop_id id notes lines)
        (λ items. Also (Stored returns) ((j : ℕ) → quantity_in j items ≡ line_quantity j lines))
unfolding put_lines pure line_quantity
put_lines-quantity returns shop_id id notes [] = record {
  at = λ s h. record { base = h; fact = λ j. refl };
}
put_lines-quantity returns shop_id id notes (line ∷ lines) =
    put_line-IsRowOf returns shop_id id notes line ▹▹ λ item. Triple-given λ own.
      put_lines-quantity returns shop_id id notes lines ▹▹ λ items. record {
        at = λ s h. record { base = h.base; fact = λ j. rw (own.0, own.1, h.fact j) refl };
      }

-- A return row for `sale` beside `returns`: its quantities are nothing or within what remained,
-- and its total is split into a part within the due amount and a refund in cash.
pub record IsReturnOf (sale : Sale) (returns : List SaleReturn) (x : SaleReturn) : Type 0 where
  pub document : x.sale_id ≡ sale.id
  pub limit :
      (id : ℕ) (item : SaleItem)
      → find_item id sale.items ≡ some item
      → (quantity_in id x.items ≡ pos 0)
        ⊎ (quantity_in id x.items ≤ℤ item.quantity -ℤ returned_quantity sale.id id returns)
  pub total : x.total_amount ≡ x.ar_amount +ℤ x.cash_refund
  pub ar_bounds : (pos 0 ≤ℤ x.ar_amount) × (x.ar_amount ≤ℤ remaining_due sale returns)
  pub cash_nonneg : pos 0 ≤ℤ x.cash_refund
  pub ar_first : (x.ar_amount ≡ remaining_due sale returns) ⊎ (x.cash_refund ≡ pos 0)

split_bounds :
    (total due : ℤ)
    → pos 0 <ℤ total
    → pos 0 ≤ℤ due
    → (total ≡ min_ℤ total due +ℤ (total -ℤ min_ℤ total due))
      × ((pos 0 ≤ℤ min_ℤ total due) × (min_ℤ total due ≤ℤ due))
      × (pos 0 ≤ℤ total -ℤ min_ℤ total due)
      × ((min_ℤ total due ≡ due) ⊎ (total -ℤ min_ℤ total due ≡ pos 0))
split_bounds total due p q = elim (Bool-cases (ltb_ℤ due total)) [
  | inl e ↦
      let above = ltb_ℤ→lt due total e in
      rw e (omega int_laws, (q, omega int_laws), omega int_laws, inl refl)
  | inr e ↦
      let within = ltb_ℤ→le due total e in
      rw e (omega int_laws, (omega int_laws, within), omega int_laws, inr (omega int_laws))
]

remaining_due_nonneg :
    (sale : Sale) (returns : List SaleReturn) → pos 0 ≤ℤ remaining_due sale returns
unfolding remaining_due
remaining_due_nonneg sale returns = ground arith

add_return-Stored :
    (returns : List SaleReturn) (x : SaleReturn)
    → Triple
        (Stored returns)
        (modify (λ s. record s { sale_returns = s.sale_returns ++ x ∷ [] }))
        (λ _. Stored (returns ++ x ∷ []))
unfolding modify
add_return-Stored returns x = record { at = λ s h. rw h refl }

write_sale_return-IsReturnOf :
    (returns : List SaleReturn) (shop_id : ℕ) (sale : Sale) (lines : List PreparedLine)
    (notes : Option String)
    → ((id : ℕ) (item : SaleItem)
        → find_item id sale.items ≡ some item
        → (line_quantity id lines ≡ pos 0)
          ⊎ (line_quantity id lines ≤ℤ item.quantity -ℤ returned_quantity sale.id id returns))
    → pos 0 <ℤ refund_total lines
    → Triple
        (Stored returns)
        (write_sale_return shop_id sale lines (remaining_due sale returns) notes)
        (λ x. Also (Stored (returns ++ x ∷ [])) (IsReturnOf sale returns x))
unfolding write_sale_return return_header pure
write_sale_return-IsReturnOf returns shop_id sale lines notes limit positive =
    new_uuid-keeps (λ s a l d h. h) ▹▹ λ id. Keeps-gets _ ▹▹ λ now. Keeps-guard _ _ ▹▹ λ _.
    put_lines-quantity returns shop_id id _ lines ▹▹ λ items. Triple-given λ same.
      let due = remaining_due sale returns in
      let split =
        split_bounds (refund_total lines) due positive (remaining_due_nonneg sale returns) in
      add_return-Stored returns _ ▹▹ λ _.
      post_sale_return-keeps (λ s a l d h. h) _ sale id _ _ _ _ ▹▹ λ _. record {
        at = λ s h. record {
          base = h;
          fact = record {
            document = refl;
            limit = λ j item found. rw (same j) (limit j item found);
            total = split.0;
            ar_bounds = split.1;
            cash_nonneg = split.2;
            ar_first = split.3;
          };
        };
      }

-- The sale that was found.
get_sale-found :
    (returns : List SaleReturn) (shop_id id : ℕ) (sale : Sale)
    → Triple
        (λ s. (s.sale_returns ≡ returns) × (find_sale shop_id id s.sales ≡ some sale))
        (get_sale_for_return shop_id id)
        (λ y. Also (Stored returns) (y ≡ sale))
unfolding get_sale_for_return ◌>>=◌ gets pure raise
get_sale-found returns shop_id id sale = record {
  at = λ s h. elim (Bool-cases (is_qualifying sale.status)) [
    | inl e ↦ rw (h.1, e) (record { base = h.0; fact = refl })
    | inr e ↦ rw (h.1, e) tt
  ];
}

get_returns :
    (returns : List SaleReturn)
    → Triple
        (Stored returns)
        (gets (λ s. s.sale_returns))
        (λ l. Also (Stored returns) (l ≡ returns))
unfolding gets
get_returns returns = record { at = λ s h. record { base = h; fact = h } }

return_goods-IsReturnOf :
    (returns : List SaleReturn) (r : ReturnRequest) (sale : Sale)
    → Triple
        (Stored returns)
        (return_goods r sale)
        (λ x. Also (Stored (returns ++ x ∷ [])) (IsReturnOf sale returns x))
unfolding return_goods
return_goods-IsReturnOf returns r sale =
    Triple-lift-bind (combine_lines r.lines) _ λ combined combines. Keeps-guard _ _ ▹▹ λ _.
    get_returns returns ▹▹ λ found. Triple-given λ same. rw same (
      Triple-lift-bind (prepare_lines sale returns combined) _ λ lines prepares.
        Triple-guard-bind (ltb_ℤ (pos 0) (refund_total lines)) _ _ λ positive.
          write_sale_return-IsReturnOf returns r.shop_id sale lines r.notes
            (prepare_lines-limit sale returns r.lines combined lines combines prepares)
            (ltb_ℤ→lt (pos 0) (refund_total lines) positive))

create_sale_return-Triple :
    (returns : List SaleReturn) (r : ReturnRequest) (sale : Sale)
    → Triple
        (λ s. (s.sale_returns ≡ returns) × (find_sale r.shop_id r.document_id s.sales ≡ some sale))
        (create_sale_return r)
        (λ x. Also (Stored (returns ++ x ∷ [])) (IsReturnOf sale returns x))
unfolding create_sale_return
create_sale_return-Triple returns r sale = Keeps-guard _ _ ▹▹ λ _. Keeps-guard _ _ ▹▹ λ _.
    get_sale-found returns r.shop_id r.document_id sale ▹▹ λ y.
    Triple-given λ same. rw same (return_goods-IsReturnOf returns r sale)

-- A customer return adds one row to the sale's returns. Of each item of the sale it takes back
-- nothing, or no more than what was sold less what earlier returns took. Its total is split into a
-- part within the amount still due and a refund in cash, neither negative, and cash is refunded
-- only once the due amount is used up.
pub create_sale_return-IsReturnOf :
    (r : ReturnRequest) (s t : Db) (sale : Sale) (x : SaleReturn)
    → find_sale r.shop_id r.document_id s.sales ≡ some sale
    → create_sale_return r s ≡ ok (x, t)
    → (t.sale_returns ≡ s.sale_returns ++ x ∷ []) × IsReturnOf sale s.sale_returns x
create_sale_return-IsReturnOf r s t sale x found e =
    let after =
      After-ok (λ y. Also (Stored (s.sale_returns ++ y ∷ [])) (IsReturnOf sale s.sale_returns y)) e
        ((create_sale_return-Triple s.sale_returns r sale).at s (refl, found)) in
    (after.base, after.fact)

returned_quantity-append :
    (sale_id id : ℕ) (l : List SaleReturn) (x : SaleReturn)
    → returned_quantity sale_id id (l ++ x ∷ []) ≡ (
        if x.sale_id == sale_id
        then returned_quantity sale_id id l +ℤ quantity_in id x.items
        else returned_quantity sale_id id l)
unfolding returned_quantity
returned_quantity-append sale_id id [] x = grind (arith, int_laws)
returned_quantity-append sale_id id (y ∷ l) x =
    grind (arith, int_laws, returned_quantity-append sale_id id l x)

-- No more of an item is ever returned than was sold: if the returned quantity of an item is within
-- the quantity sold, it still is after another return against the sale.
pub create_sale_return-limit :
    (r : ReturnRequest) (s t : Db) (sale : Sale) (x : SaleReturn) (id : ℕ) (item : SaleItem)
    → find_sale r.shop_id r.document_id s.sales ≡ some sale
    → create_sale_return r s ≡ ok (x, t)
    → find_item id sale.items ≡ some item
    → returned_quantity sale.id id s.sale_returns ≤ℤ item.quantity
    → returned_quantity sale.id id t.sale_returns ≤ℤ item.quantity
create_sale_return-limit r s t sale x id item found e known before =
    let after = create_sale_return-IsReturnOf r s t sale x found e in
    rw
      (
        after.0,
        returned_quantity-append sale.id id s.sale_returns x,
        after.1.document,
        ==_refl sale.id,
      )
      (within (returned_quantity sale.id id s.sale_returns) (quantity_in id x.items) item.quantity
        before (after.1.limit id item known))
  where
    within : (a b c : ℤ) → a ≤ℤ c → (b ≡ pos 0) ⊎ (b ≤ℤ c -ℤ a) → a +ℤ b ≤ℤ c
    within a b c h (inl e) = rw e (omega int_laws)
    within a b c h (inr k) = omega int_laws
