-- ===== src/Tests/Edits.antt =====
-- The first sale, edited: its discount is taken back.
use kapra_os.Prelude.{◌≡◌, refl, true, none, some, pos, arith, Option}
use kapra_os.Decimal.{cents}
use kapra_os.Tables.{Db, Sale}
use kapra_os.Sales.Edit.{Field, SaleUpdate, find_sale, update_sale}
use kapra_os.Sales.Created.{IsTotalled, create_sale-IsTotalled}
use kapra_os.Sales.Edited.{update_sale-IsTotalled}
use kapra_os.Tests.Evaluation.{evaluation}
use kapra_os.Tests.Shop.{request, state_of, value_of, is_ok, ran}
use kapra_os.Tests.Histories.{bought, stocked, sold, sold-IsCreated}

abbrev edit : SaleUpdate
edit = record {
  items = none;
  customer_id = Field.leave;
  invoice_number = Field.leave;
  discount = some (cents (pos 0));
}

abbrev edited : Sale
edited = value_of (update_sale 1 bought.id edit sold) bought

abbrev after_edit : Db
after_edit = state_of (update_sale 1 bought.id edit sold) sold

edit_ok : is_ok (update_sale 1 bought.id edit sold) ≡ true
unfolding evaluation
edit_ok = refl

bought-IsFound : find_sale 1 bought.id sold.sales ≡ some bought
unfolding evaluation
bought-IsFound = refl

same_sale : (o : Option Sale) (x y : Sale) → o ≡ some x → o ≡ some y → x ≡ y
same_sale o x y p q = ground arith

stored-IsTotalled : (y : Sale) → find_sale 1 bought.id sold.sales ≡ some y → IsTotalled y
stored-IsTotalled y e =
    let same = same_sale (find_sale 1 bought.id sold.sales) bought y bought-IsFound e in
    rw (← same) (create_sale-IsTotalled request stocked sold bought sold-IsCreated)

update_sale-IsTotalled_example : IsTotalled edited
update_sale-IsTotalled_example =
    update_sale-IsTotalled 1 bought.id edit sold after_edit edited stored-IsTotalled
      (ran (update_sale 1 bought.id edit sold) bought sold edit_ok)
