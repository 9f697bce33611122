-- ===== src/Sales/Stock.antt =====
-- What the creation and the void of a sale do to the stored quantities.
use kapra_os.Prelude.{
  ℕ, ◌≡◌, refl, Option, none, some, List, [], ◌∷◌, arith, ℤ, ◌∙◌, pos, ◌+ℤ◌, ◌-ℤ◌, int_laws,
}
use kapra_os.Tables.{Db, Sale, SaleItem, Text}
use kapra_os.Session.{ok, pure, gets, ◌>>=◌}
use kapra_os.Session.Keeps.{
  Triple, After-ok, Keeps-guard, Keeps-lift, Keeps-gets, Keeps-modify, ◌▹▹◌,
}
use kapra_os.Inventory.Rows.{on_hand}
use kapra_os.Inventory.Levels.{
  HasLevel, changed, add_stock-HasLevel, remove_stock-HasLevel, get_weighted_average_cost-HasLevel,
}
use kapra_os.Sales.Lines.{NormalisedItem, NormalisedPayment}
use kapra_os.Sales.Create.{SaleRequest, take_line, take_lines, sale_header, write_sale, create_sale}
use kapra_os.Sales.Edit.{
  find_sale, old_quantity, get_sale_for_update, put_back, delete_found, delete_sale,
}
use kapra_os.Sales.Invariants.Create.{
  Ignores, get_shop-keeps, get_customer_if-keeps, validate_variants-keeps, allocate_if-keeps,
  check_header-keeps, insert_sale-keeps, add_payments-keeps,
}
use kapra_os.Sales.Invariants.Edit.{assert_no_returns-keeps, delete_payment_postings-keeps}
use kapra_os.Sales.Invariants.Both.{ReadsStock-Ignores}

sub_zero : (n : ℤ) → n ≡ n -ℤ pos 0
sub_zero n = omega int_laws

add_zero : (n : ℤ) → n ≡ n +ℤ pos 0
add_zero n = omega int_laws

-- One line out of the level, then the others.
changed-minus :
    (w : ℕ) (n : ℤ) (x : SaleItem) (items : List SaleItem)
    → changed x.variant_id (pos 0 -ℤ x.quantity) w n -ℤ old_quantity w items
      ≡ n -ℤ old_quantity w (x ∷ items)
unfolding old_quantity
changed-minus w n x items = grind (arith, int_laws)

changed-plus :
    (w : ℕ) (n : ℤ) (x : SaleItem) (items : List SaleItem)
    → changed x.variant_id x.quantity w n +ℤ old_quantity w items ≡ n +ℤ old_quantity w (x ∷ items)
unfolding old_quantity
changed-plus w n x items = grind (arith, int_laws)

module _ (w : ℕ) where
  HasLevel-Ignores : (n : ℤ) → Ignores (HasLevel w n)
  HasLevel-Ignores n = ReadsStock-Ignores λ s t e f h. rw (← e) h

  take_line-HasLevel :
      (shop_id sale_id : ℕ) (line : NormalisedItem) (n : ℤ)
      → Triple
          (HasLevel w n)
          (take_line shop_id sale_id line)
          (λ x. HasLevel w (changed x.variant_id (pos 0 -ℤ x.quantity) w n))
  unfolding take_line pure
  take_line-HasLevel shop_id sale_id line n =
      get_weighted_average_cost-HasLevel w n shop_id line.variant_id ▹▹ λ average.
      (HasLevel-Ignores n).uuid ▹▹ λ id.
      Keeps-guard _ _ ▹▹ λ _. remove_stock-HasLevel w n _ ▹▹ λ _. record { at = λ s h. h }

  take_lines-HasLevel :
      (shop_id sale_id : ℕ) (lines : List NormalisedItem) (n : ℤ)
      → Triple
          (HasLevel w n)
          (take_lines shop_id sale_id lines)
          (λ items. HasLevel w (n -ℤ old_quantity w items))
  unfolding take_lines old_quantity pure
  take_lines-HasLevel shop_id sale_id [] n = record { at = λ s h. h ∙ sub_zero n }
  take_lines-HasLevel shop_id sale_id (line ∷ lines) n =
      take_line-HasLevel shop_id sale_id line n ▹▹ λ item.
      take_lines-HasLevel shop_id sale_id lines _ ▹▹ λ items. record {
        at = λ s h. h ∙ changed-minus w n item items;
      }

  write_sale-HasLevel :
      (r : SaleRequest) (invoice : Option Text) (lines : List NormalisedItem) (discount : ℤ)
      (payments : List NormalisedPayment) (n : ℤ)
      → Triple
          (HasLevel w n)
          (write_sale r invoice lines discount payments)
          (λ x. HasLevel w (n -ℤ old_quantity w x.items))
  unfolding write_sale sale_header pure
  write_sale-HasLevel r invoice lines discount payments n =
      allocate_if-keeps (HasLevel-Ignores n) r.shop_id invoice ▹▹ λ number.
      (HasLevel-Ignores n).uuid ▹▹ λ id. Keeps-gets _ ▹▹ λ now.
      check_header-keeps (HasLevel-Ignores n) _ ▹▹ λ _.
      take_lines-HasLevel r.shop_id id lines n ▹▹ λ items.
      let kept = HasLevel-Ignores (n -ℤ old_quantity w items) in
      insert_sale-keeps kept _ ▹▹ λ _.
      add_payments-keeps kept r.shop_id r.customer_id id payments ▹▹ λ _.
      kept.sale _ none ▹▹ λ _. kept.cogs _ none ▹▹ λ _. record { at = λ s h. h }

  create_sale-HasLevel :
      (r : SaleRequest) (n : ℤ)
      → Triple (HasLevel w n) (create_sale r) (λ x. HasLevel w (n -ℤ old_quantity w x.items))
  unfolding create_sale
  create_sale-HasLevel r n =
      let kept = HasLevel-Ignores n in
      Keeps-guard _ _ ▹▹ λ _. Keeps-lift _ ▹▹ λ invoice. get_shop-keeps kept r.shop_id ▹▹ λ _.
      get_customer_if-keeps kept r.shop_id r.customer_id ▹▹ λ _. Keeps-lift _ ▹▹ λ lines.
      validate_variants-keeps kept r.shop_id lines ▹▹ λ _. Keeps-guard _ _ ▹▹ λ _.
      Keeps-lift _ ▹▹ λ payments. Keeps-guard _ _ ▹▹ λ _. write_sale-HasLevel r _ _ _ _ n

  put_back-HasLevel :
      (shop_id sale_id : ℕ) (items : List SaleItem) (n : ℤ)
      → Triple
          (HasLevel w n)
          (put_back shop_id sale_id items)
          (λ _. HasLevel w (n +ℤ old_quantity w items))
  unfolding put_back old_quantity pure
  put_back-HasLevel shop_id sale_id [] n = record { at = λ s h. h ∙ add_zero n }
  put_back-HasLevel shop_id sale_id (x ∷ items) n =
      rw (← changed-plus w n x items)
        (add_stock-HasLevel w n _ ▹▹ λ _. put_back-HasLevel shop_id sale_id items _)

  -- The void of a sale that was found.
  delete_found-HasLevel :
      (shop_id : ℕ) (x : Sale) (n : ℤ)
      → Triple
          (HasLevel w n)
          (delete_found shop_id x)
          (λ _. HasLevel w (n +ℤ old_quantity w x.items))
  unfolding delete_found
  delete_found-HasLevel shop_id x n =
      let kept = HasLevel-Ignores (n +ℤ old_quantity w x.items) in
      assert_no_returns-keeps (HasLevel-Ignores n) x.id ▹▹ λ _.
      put_back-HasLevel _ x.id x.items n ▹▹ λ _. Keeps-gets _ ▹▹ λ payments.
      kept.delete _ _ _ ▹▹ λ _.
      delete_payment_postings-keeps kept _ payments ▹▹ λ _. Keeps-modify _ λ s h. h

-- A created sale takes exactly the quantities of its lines out of stock: the stored quantity of
-- every variant falls by what the sale's lines have of it, and by nothing where they have none.
pub create_sale-stock :
    (w : ℕ) (r : SaleRequest) (s t : Db) (x : Sale)
    → create_sale r s ≡ ok (x, t)
    → on_hand w t.inventory ≡ on_hand w s.inventory -ℤ old_quantity w x.items
create_sale-stock w r s t x e =
    let after = create_sale-HasLevel w r (on_hand w s.inventory) in
    After-ok (λ y. HasLevel w (on_hand w s.inventory -ℤ old_quantity w y.items)) e (after.at s refl)

-- A voided sale puts exactly the quantities of its lines back: the stored quantity of every variant
-- rises by what the sale's lines have of it.
pub delete_sale-stock :
    (w shop_id sale_id : ℕ) (s t : Db) (x : Sale)
    → find_sale shop_id sale_id s.sales ≡ some x
    → delete_sale shop_id sale_id s ≡ ok (tt, t)
    → on_hand w t.inventory ≡ on_hand w s.inventory +ℤ old_quantity w x.items
unfolding delete_sale get_sale_for_update ◌>>=◌ gets
delete_sale-stock w shop_id sale_id s t x found e =
    let after = delete_found-HasLevel w shop_id x (on_hand w s.inventory) in
    After-ok (λ _. HasLevel w (on_hand w s.inventory +ℤ old_quantity w x.items)) (rw found at e)
      (after.at s refl)
