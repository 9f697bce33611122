-- ===== src/Returns/Stock.antt =====
-- What a customer return does to the stored quantities.
use kapra_os.Prelude.{
  ℕ, ◌==◌, ◌≡◌, refl, if◌then◌else◌, ◌∙◌, String, Option, List, [], ◌∷◌, arith, ℤ, pos, ◌+ℤ◌,
  int_laws,
}
use kapra_os.Tables.{Db, Sale, SaleReturn, SaleReturnItem}
use kapra_os.Session.{ok, pure}
use kapra_os.Session.Keeps.{
  Triple, After-ok, Keeps-guard, Keeps-lift, Keeps-gets, Keeps-modify, ◌▹▹◌,
}
use kapra_os.Inventory.Rows.{on_hand}
use kapra_os.Inventory.Levels.{HasLevel, changed, add_stock-HasLevel}
use kapra_os.Documents.{IgnoresDocuments, ReadsStock-IgnoresDocuments}
use kapra_os.Returns.SaleLines.{PreparedLine}
use kapra_os.Returns.OfSale.{
  ReturnRequest, put_line, put_lines, write_sale_return, return_goods, create_sale_return,
}
use kapra_os.Returns.Keeps.{get_sale_for_return-keeps}

-- What the lines of a return have of a variant.
unfoldable pub brought_back : ℕ → List SaleReturnItem → ℤ
brought_back w [] = pos 0
brought_back w (x ∷ items) =
    let others = brought_back w items in if x.variant_id == w then x.quantity +ℤ others else others

add_zero : (n : ℤ) → n ≡ n +ℤ pos 0
add_zero n = omega int_laws

changed-plus :
    (w : ℕ) (n : ℤ) (x : SaleReturnItem) (items : List SaleReturnItem)
    → changed x.variant_id x.quantity w n +ℤ brought_back w items ≡ n +ℤ brought_back w (x ∷ items)
unfolding brought_back
changed-plus w n x items = grind (arith, int_laws)

module _ (w : ℕ) where
  HasLevel-Ignores : (n : ℤ) → IgnoresDocuments (HasLevel w n)
  HasLevel-Ignores n = ReadsStock-IgnoresDocuments λ s t e f h. rw (← e) h

  put_line-HasLevel :
      (shop_id return_id : ℕ) (notes : String) (line : PreparedLine) (n : ℤ)
      → Triple
          (HasLevel w n)
          (put_line shop_id return_id notes line)
          (λ x. HasLevel w (changed x.variant_id x.quantity w n))
  unfolding put_line pure
  put_line-HasLevel shop_id return_id notes line n = (HasLevel-Ignores n).others.uuid ▹▹ λ id.
      Keeps-guard _ _ ▹▹ λ _. add_stock-HasLevel w n _ ▹▹ λ _. record { at = λ s h. h }

  put_lines-HasLevel :
      (shop_id return_id : ℕ) (notes : String) (lines : List PreparedLine) (n : ℤ)
      → Triple
          (HasLevel w n)
          (put_lines shop_id return_id notes lines)
          (λ items. HasLevel w (n +ℤ brought_back w items))
  unfolding put_lines brought_back pure
  put_lines-HasLevel shop_id return_id notes [] n = record { at = λ s h. h ∙ add_zero n }
  put_lines-HasLevel shop_id return_id notes (line ∷ lines) n =
      put_line-HasLevel shop_id return_id notes line n ▹▹ λ item.
      put_lines-HasLevel shop_id return_id notes lines _ ▹▹ λ items. record {
        at = λ s h. h ∙ changed-plus w n item items;
      }

  write_sale_return-HasLevel :
      (shop_id : ℕ) (sale : Sale) (lines : List PreparedLine) (due : ℤ) (notes : Option String)
      (n : ℤ)
      → Triple
          (HasLevel w n)
          (write_sale_return shop_id sale lines due notes)
          (λ x. HasLevel w (n +ℤ brought_back w x.items))
  unfolding write_sale_return pure
  write_sale_return-HasLevel shop_id sale lines due notes n =
      (HasLevel-Ignores n).others.uuid ▹▹ λ id. Keeps-gets _ ▹▹ λ now. Keeps-guard _ _ ▹▹ λ _.
      put_lines-HasLevel shop_id id _ lines n ▹▹ λ items. Keeps-modify _ (λ s h. h) ▹▹ λ _.
      (HasLevel-Ignores (n +ℤ brought_back w items)).sale_return sale id _ _ _ _ _ ▹▹ λ _. record {
        at = λ s h. h;
      }

  create_sale_return-HasLevel :
      (r : ReturnRequest) (n : ℤ)
      → Triple (HasLevel w n) (create_sale_return r) (λ x. HasLevel w (n +ℤ brought_back w x.items))
  unfolding create_sale_return return_goods
  create_sale_return-HasLevel r n = Keeps-guard _ _ ▹▹ λ _. Keeps-guard _ _ ▹▹ λ _.
      get_sale_for_return-keeps (HasLevel-Ignores n) r.shop_id r.document_id ▹▹ λ sale.
      Keeps-lift _ ▹▹ λ combined. Keeps-guard _ _ ▹▹ λ _. Keeps-gets _ ▹▹ λ returns.
      Keeps-lift _ ▹▹ λ lines.
      Keeps-guard _ _ ▹▹ λ _. write_sale_return-HasLevel r.shop_id sale lines _ r.notes n

-- A customer return puts exactly the quantities of its lines back into stock: the stored quantity
-- of every variant rises by what the return's lines have of it.
pub create_sale_return-stock :
    (w : ℕ) (r : ReturnRequest) (s t : Db) (x : SaleReturn)
    → create_sale_return r s ≡ ok (x, t)
    → on_hand w t.inventory ≡ on_hand w s.inventory +ℤ brought_back w x.items
create_sale_return-stock w r s t x e =
    let after = create_sale_return-HasLevel w r (on_hand w s.inventory) in
    After-ok (λ y. HasLevel w (on_hand w s.inventory +ℤ brought_back w y.items)) e (after.at s refl)
