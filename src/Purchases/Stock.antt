-- ===== src/Purchases/Stock.antt =====
-- What the receipt and the void of a purchase do to the stored quantities.
use kapra_os.Prelude.{
  ℕ, ◌==◌, ◌≡◌, refl, if◌then◌else◌, ◌∙◌, none, some, List, [], ◌∷◌, arith, ℤ, pos, ◌+ℤ◌, ◌-ℤ◌,
  int_laws,
}
use kapra_os.Tables.{Db, Purchase, PurchaseItem}
use kapra_os.Session.{ok, pure, gets, ◌>>=◌}
use kapra_os.Session.Keeps.{
  Triple, After-ok, Keeps-guard, Keeps-lift, Keeps-gets, Keeps-modify, ◌▹▹◌,
}
use kapra_os.Inventory.Rows.{on_hand}
use kapra_os.Inventory.Levels.{HasLevel, changed, add_stock-HasLevel, remove_stock-HasLevel}
use kapra_os.Purchases.Lines.{PurchaseLine}
use kapra_os.Purchases.Create.{
  PurchaseRequest, receive_line, receive_lines, purchase_header, write_purchase, create_purchase,
}
use kapra_os.Purchases.Void.{
  find_purchase, get_purchase_for_update, pull_out, void_purchase, delete_purchase,
}
use kapra_os.Purchases.Keeps.{
  IgnoresPurchases, get_supplier-keeps, validate_variants-keeps, check_purchase-keeps,
  assert_no_returns-keeps, delete_supplier_postings-keeps, ReadsStock-IgnoresPurchases,
}

-- What the lines of a purchase have of a variant.
unfoldable pub received : ℕ → List PurchaseItem → ℤ
received w [] = pos 0
received w (x ∷ items) =
    let others = received w items in if x.variant_id == w then x.quantity +ℤ others else others

sub_zero : (n : ℤ) → n ≡ n -ℤ pos 0
sub_zero n = omega int_laws

add_zero : (n : ℤ) → n ≡ n +ℤ pos 0
add_zero n = omega int_laws

-- One line, then the others.
changed-plus :
    (w : ℕ) (n : ℤ) (x : PurchaseItem) (items : List PurchaseItem)
    → changed x.variant_id x.quantity w n +ℤ received w items ≡ n +ℤ received w (x ∷ items)
unfolding received
changed-plus w n x items = grind (arith, int_laws)

changed-minus :
    (w : ℕ) (n : ℤ) (x : PurchaseItem) (items : List PurchaseItem)
    → changed x.variant_id (pos 0 -ℤ x.quantity) w n -ℤ received w items
      ≡ n -ℤ received w (x ∷ items)
unfolding received
changed-minus w n x items = grind (arith, int_laws)

module _ (w : ℕ) where
  HasLevel-Ignores : (n : ℤ) → IgnoresPurchases (HasLevel w n)
  HasLevel-Ignores n = ReadsStock-IgnoresPurchases λ s t e f h. rw (← e) h

  receive_line-HasLevel :
      (shop_id purchase_id : ℕ) (line : PurchaseLine) (n : ℤ)
      → Triple
          (HasLevel w n)
          (receive_line shop_id purchase_id line)
          (λ x. HasLevel w (changed x.variant_id x.quantity w n))
  unfolding receive_line pure
  receive_line-HasLevel shop_id purchase_id line n = (HasLevel-Ignores n).others.uuid ▹▹ λ id.
      Keeps-guard _ _ ▹▹ λ _. add_stock-HasLevel w n _ ▹▹ λ _. record { at = λ s h. h }

  receive_lines-HasLevel :
      (shop_id purchase_id : ℕ) (lines : List PurchaseLine) (n : ℤ)
      → Triple
          (HasLevel w n)
          (receive_lines shop_id purchase_id lines)
          (λ items. HasLevel w (n +ℤ received w items))
  unfolding receive_lines received pure
  receive_lines-HasLevel shop_id purchase_id [] n = record { at = λ s h. h ∙ add_zero n }
  receive_lines-HasLevel shop_id purchase_id (line ∷ lines) n =
      receive_line-HasLevel shop_id purchase_id line n ▹▹ λ item.
      receive_lines-HasLevel shop_id purchase_id lines _ ▹▹ λ items. record {
        at = λ s h. h ∙ changed-plus w n item items;
      }

  write_purchase-HasLevel :
      (r : PurchaseRequest) (lines : List PurchaseLine) (discount paid_amount n : ℤ)
      → Triple
          (HasLevel w n)
          (write_purchase r lines discount paid_amount)
          (λ x. HasLevel w (n +ℤ received w x.items))
  unfolding write_purchase purchase_header pure
  write_purchase-HasLevel r lines discount paid_amount n = (HasLevel-Ignores n).others.uuid ▹▹ λ id.
      Keeps-gets _ ▹▹ λ now. check_purchase-keeps (HasLevel-Ignores n) _ ▹▹ λ _.
      receive_lines-HasLevel r.shop_id id lines n ▹▹ λ items. Keeps-modify _ (λ s h. h) ▹▹ λ _.
      (HasLevel-Ignores (n +ℤ received w items)).posted _ none ▹▹ λ _. record { at = λ s h. h }

  create_purchase-HasLevel :
      (r : PurchaseRequest) (n : ℤ)
      → Triple (HasLevel w n) (create_purchase r) (λ x. HasLevel w (n +ℤ received w x.items))
  unfolding create_purchase
  create_purchase-HasLevel r n =
      let kept = HasLevel-Ignores n in
      Keeps-guard _ _ ▹▹ λ _. get_supplier-keeps kept r.shop_id r.supplier_id ▹▹ λ _.
      Keeps-lift _ ▹▹ λ lines. validate_variants-keeps kept r.shop_id lines ▹▹ λ _.
      Keeps-guard _ _ ▹▹ λ _. Keeps-guard _ _ ▹▹ λ _. write_purchase-HasLevel r lines _ _ n

  pull_out-HasLevel :
      (shop_id purchase_id : ℕ) (items : List PurchaseItem) (n : ℤ)
      → Triple
          (HasLevel w n)
          (pull_out shop_id purchase_id items)
          (λ _. HasLevel w (n -ℤ received w items))
  unfolding pull_out received pure
  pull_out-HasLevel shop_id purchase_id [] n = record { at = λ s h. h ∙ sub_zero n }
  pull_out-HasLevel shop_id purchase_id (x ∷ items) n =
      rw (← changed-minus w n x items)
        (remove_stock-HasLevel w n _ ▹▹ λ _. pull_out-HasLevel shop_id purchase_id items _)

  void_purchase-HasLevel :
      (shop_id : ℕ) (x : Purchase) (n : ℤ)
      → Triple (HasLevel w n) (void_purchase shop_id x) (λ _. HasLevel w (n -ℤ received w x.items))
  unfolding void_purchase
  void_purchase-HasLevel shop_id x n =
      let kept = HasLevel-Ignores (n -ℤ received w x.items) in
      assert_no_returns-keeps (HasLevel-Ignores n) x.id ▹▹ λ _.
      pull_out-HasLevel shop_id x.id x.items n ▹▹ λ _. Keeps-gets _ ▹▹ λ payments.
      kept.others.delete _ _ _ ▹▹ λ _.
      delete_supplier_postings-keeps kept shop_id payments ▹▹ λ _. Keeps-modify _ λ s h. h

-- A created purchase puts exactly the quantities of its lines into stock: the stored quantity of
-- every variant rises by what the purchase's lines have of it.
pub create_purchase-stock :
    (w : ℕ) (r : PurchaseRequest) (s t : Db) (x : Purchase)
    → create_purchase r s ≡ ok (x, t)
    → on_hand w t.inventory ≡ on_hand w s.inventory +ℤ received w x.items
create_purchase-stock w r s t x e =
    let after = create_purchase-HasLevel w r (on_hand w s.inventory) in
    After-ok (λ y. HasLevel w (on_hand w s.inventory +ℤ received w y.items)) e (after.at s refl)

-- A voided purchase takes exactly the quantities of its lines out of stock again: the stored
-- quantity of every variant falls by what the purchase's lines have of it.
pub delete_purchase-stock :
    (w shop_id purchase_id : ℕ) (s t : Db) (x : Purchase)
    → find_purchase shop_id purchase_id s.purchases ≡ some x
    → delete_purchase shop_id purchase_id s ≡ ok (tt, t)
    → on_hand w t.inventory ≡ on_hand w s.inventory -ℤ received w x.items
unfolding delete_purchase get_purchase_for_update ◌>>=◌ gets
delete_purchase-stock w shop_id purchase_id s t x found e =
    let after = void_purchase-HasLevel w shop_id x (on_hand w s.inventory) in
    After-ok (λ _. HasLevel w (on_hand w s.inventory -ℤ received w x.items)) (rw found at e)
      (after.at s refl)
