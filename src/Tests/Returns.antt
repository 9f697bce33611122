-- ===== src/Tests/Returns.antt =====
-- Returns of goods, and the theorems on them at one return.
use kapra_os.Prelude.{
  ℕ, List, ◌≡◌, refl, true, some, none, [], ◌∷◌, ◌++◌, pos, ◌≤ℤ◌, ◌+ℤ◌, int_laws,
}
use kapra_os.Decimal.{mills}
use kapra_os.Tables.{Db, SaleReturn, SaleItem}
use kapra_os.Session.{ok}
use kapra_os.Inventory.Rows.{on_hand}
use kapra_os.Sales.Edit.{find_sale}
use kapra_os.Returns.SaleLines.{find_item, returned_quantity}
use kapra_os.Returns.OfSale.{ReturnRequest, create_sale_return}
use kapra_os.Returns.Stock.{brought_back, create_sale_return-stock}
use kapra_os.Returns.Limit.{IsReturnOf, create_sale_return-IsReturnOf, create_sale_return-limit}
use kapra_os.Tests.Evaluation.{evaluation}
use kapra_os.Tests.Histories.{sold, bought}
use kapra_os.Tests.Shop.{state_of, value_of, is_ok, ran}

abbrev first_item : List SaleItem → ℕ
first_item [] = 0
first_item (x ∷ items) = x.id

-- One metre of the line is brought back.
abbrev half_back : ReturnRequest
half_back = record {
  shop_id = 1;
  document_id = bought.id;
  lines = record { item_id = first_item bought.items; quantity = mills (pos 1000) } ∷ [];
  notes = none;
}

abbrev some_return : SaleReturn
some_return = record {
  id = 0;
  shop_id = 0;
  sale_id = 0;
  customer_id = none;
  total_amount = pos 0;
  ar_amount = pos 0;
  cash_refund = pos 0;
  cogs_amount = pos 0;
  notes = none;
  created_at = 0;
  items = [];
}

half_back_ok : is_ok (create_sale_return half_back sold) ≡ true
unfolding evaluation
half_back_ok = refl

bought_found : find_sale 1 bought.id sold.sales ≡ some bought
unfolding evaluation
bought_found = refl

abbrev brought : SaleReturn
brought = value_of (create_sale_return half_back sold) some_return

abbrev left : Db
left = state_of (create_sale_return half_back sold) sold

brought-IsCreated : create_sale_return half_back sold ≡ ok (brought, left)
brought-IsCreated = ran (create_sale_return half_back sold) some_return sold half_back_ok

create_sale_return-IsReturnOf_example :
    (left.sale_returns ≡ sold.sale_returns ++ brought ∷ [])
    × IsReturnOf bought sold.sale_returns brought
create_sale_return-IsReturnOf_example =
    create_sale_return-IsReturnOf half_back sold left bought brought bought_found brought-IsCreated

abbrev some_item : SaleItem
some_item = record {
  id = 0;
  variant_id = 0;
  quantity = pos 0;
  unit_price = pos 0;
  cost_price = pos 0;
  discount = pos 0;
  total = pos 0;
}

abbrev head_item : List SaleItem → SaleItem
head_item [] = some_item
head_item (x ∷ items) = x

abbrev bought_item : SaleItem
bought_item = head_item bought.items

item_found : find_item (first_item bought.items) bought.items ≡ some bought_item
unfolding evaluation
item_found = refl

none_returned :
    returned_quantity bought.id (first_item bought.items) sold.sale_returns ≤ℤ bought_item.quantity
unfolding evaluation
none_returned = omega int_laws

create_sale_return-limit_example :
    returned_quantity bought.id (first_item bought.items) left.sale_returns ≤ℤ bought_item.quantity
create_sale_return-limit_example =
    create_sale_return-limit half_back sold left bought brought (first_item bought.items)
      bought_item bought_found brought-IsCreated item_found none_returned

create_sale_return-stock_example :
    on_hand bought_item.variant_id left.inventory
    ≡ on_hand bought_item.variant_id sold.inventory
      +ℤ brought_back bought_item.variant_id brought.items
create_sale_return-stock_example =
    create_sale_return-stock bought_item.variant_id half_back sold left brought brought-IsCreated
