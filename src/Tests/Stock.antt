-- ===== src/Tests/Stock.antt =====
-- The levels after a sale, and after its void.
use kapra_os.Prelude.{◌≡◌, refl, true, some, ◌+ℤ◌, ◌-ℤ◌}
use kapra_os.Tables.{Db}
use kapra_os.Inventory.Rows.{on_hand}
use kapra_os.Sales.Edit.{find_sale, old_quantity, delete_sale}
use kapra_os.Sales.Stock.{create_sale-stock, delete_sale-stock}
use kapra_os.Tests.Evaluation.{evaluation}
use kapra_os.Tests.Shop.{request, state_of, is_ok, ran}
use kapra_os.Tests.Histories.{bought, stocked, sold, sold-IsCreated}

create_sale-stock_example :
    on_hand 20 sold.inventory ≡ on_hand 20 stocked.inventory -ℤ old_quantity 20 bought.items
create_sale-stock_example = create_sale-stock 20 request stocked sold bought sold-IsCreated

abbrev voided : Db
voided = state_of (delete_sale 1 bought.id sold) sold

void_ok : is_ok (delete_sale 1 bought.id sold) ≡ true
unfolding evaluation
void_ok = refl

bought-IsStored : find_sale 1 bought.id sold.sales ≡ some bought
unfolding evaluation
bought-IsStored = refl

delete_sale-stock_example :
    on_hand 20 voided.inventory ≡ on_hand 20 sold.inventory +ℤ old_quantity 20 bought.items
delete_sale-stock_example =
    delete_sale-stock 20 1 bought.id sold voided bought bought-IsStored
      (ran (delete_sale 1 bought.id sold) tt sold void_ok)
