-- ===== src/Returns/Sent.antt =====
-- What a return to the supplier does to the stored quantities.
use kapra_os.Prelude.{
  ℕ, ◌==◌, ◌≡◌, refl, if◌then◌else◌, ◌∙◌, String, Option, List, [], ◌∷◌, arith, ℤ, pos, ◌+ℤ◌, ◌-ℤ◌,
  int_laws,
}
use kapra_os.Tables.{Db, Purchase, PurchaseReturn, PurchaseReturnItem}
use kapra_os.Session.{ok, pure}
use kapra_os.Session.Keeps.{
  Triple, After-ok, Keeps-guard, Keeps-lift, Keeps-gets, Keeps-modify, ◌▹▹◌,
}
use kapra_os.Inventory.Rows.{on_hand}
use kapra_os.Inventory.Levels.{HasLevel, changed, remove_stock-HasLevel}
use kapra_os.Documents.{IgnoresDocuments, ReadsStock-IgnoresDocuments}
use kapra_os.Returns.PurchaseLines.{PreparedLine}
use kapra_os.Returns.OfSale.{ReturnRequest}
use kapra_os.Returns.OfPurchase.{
  send_line, send_lines, write_purchase_return, create_purchase_return,
}
use kapra_os.Returns.Keeps.{get_purchase-keeps}

-- What the lines of a return to the supplier have of a variant.
unfoldable pub sent_back : ℕ → List PurchaseReturnItem → ℤ
sent_back w [] = pos 0
sent_back w (x ∷ items) =
    let others = sent_back w items in if x.variant_id == w then x.quantity +ℤ others else others

sub_zero : (n : ℤ) → n ≡ n -ℤ pos 0
sub_zero n = omega int_laws

changed-minus :
    (w : ℕ) (n : ℤ) (x : PurchaseReturnItem) (items : List PurchaseReturnItem)
    → changed x.variant_id (pos 0 -ℤ x.quantity) w n -ℤ sent_back w items
      ≡ n -ℤ sent_back w (x ∷ items)
unfolding sent_back
changed-minus w n x items = grind (arith, int_laws)

module _ (w : ℕ) where
  HasLevel-Ignores : (n : ℤ) → IgnoresDocuments (HasLevel w n)
  HasLevel-Ignores n = ReadsStock-IgnoresDocuments λ s t e f h. rw (← e) h

  send_line-HasLevel :
      (shop_id return_id : ℕ) (notes : String) (line : PreparedLine) (n : ℤ)
      → Triple
          (HasLevel w n)
          (send_line shop_id return_id notes line)
          (λ x. HasLevel w (changed x.variant_id (pos 0 -ℤ x.quantity) w n))
  unfolding send_line pure
  send_line-HasLevel shop_id return_id notes line n = (HasLevel-Ignores n).others.uuid ▹▹ λ id.
      Keeps-guard _ _ ▹▹ λ _. remove_stock-HasLevel w n _ ▹▹ λ _. record { at = λ s h. h }

  send_lines-HasLevel :
      (shop_id return_id : ℕ) (notes : String) (lines : List PreparedLine) (n : ℤ)
      → Triple
          (HasLevel w n)
          (send_lines shop_id return_id notes lines)
          (λ items. HasLevel w (n -ℤ sent_back w items))
  unfolding send_lines sent_back pure
  send_lines-HasLevel shop_id return_id notes [] n = record { at = λ s h. h ∙ sub_zero n }
  send_lines-HasLevel shop_id return_id notes (line ∷ lines) n =
      send_line-HasLevel shop_id return_id notes line n ▹▹ λ item.
      send_lines-HasLevel shop_id return_id notes lines _ ▹▹ λ items. record {
        at = λ s h. h ∙ changed-minus w n item items;
      }

  write_purchase_return-HasLevel :
      (shop_id : ℕ) (purchase : Purchase) (lines : List PreparedLine) (notes : Option String)
      (n : ℤ)
      → Triple
          (HasLevel w n)
          (write_purchase_return shop_id purchase lines notes)
          (λ x. HasLevel w (n -ℤ sent_back w x.items))
  unfolding write_purchase_return pure
  write_purchase_return-HasLevel shop_id purchase lines notes n =
      (HasLevel-Ignores n).others.uuid ▹▹ λ id. Keeps-gets _ ▹▹ λ now.
      send_lines-HasLevel shop_id id _ lines n ▹▹ λ items. Keeps-modify _ (λ s h. h) ▹▹ λ _.
      (HasLevel-Ignores (n -ℤ sent_back w items)).purchase_return shop_id id _ _ ▹▹ λ _. record {
        at = λ s h. h;
      }

  create_purchase_return-HasLevel :
      (r : ReturnRequest) (n : ℤ)
      → Triple
          (HasLevel w n)
          (create_purchase_return r)
          (λ x. HasLevel w (n -ℤ sent_back w x.items))
  unfolding create_purchase_return
  create_purchase_return-HasLevel r n = Keeps-guard _ _ ▹▹ λ _. Keeps-guard _ _ ▹▹ λ _.
      get_purchase-keeps (HasLevel-Ignores n) r.shop_id r.document_id ▹▹ λ purchase.
      Keeps-lift _ ▹▹ λ combined. Keeps-guard _ _ ▹▹ λ _. Keeps-gets _ ▹▹ λ returns.
      Keeps-lift _ ▹▹ λ lines.
      Keeps-guard _ _ ▹▹ λ _. write_purchase_return-HasLevel r.shop_id purchase lines r.notes n

-- A return to the supplier takes exactly the quantities of its lines out of stock: the stored
-- quantity of every variant falls by what the return's lines have of it.
pub create_purchase_return-stock :
    (w : ℕ) (r : ReturnRequest) (s t : Db) (x : PurchaseReturn)
    → create_purchase_return r s ≡ ok (x, t)
    → on_hand w t.inventory ≡ on_hand w s.inventory -ℤ sent_back w x.items
create_purchase_return-stock w r s t x e =
    let after = create_purchase_return-HasLevel w r (on_hand w s.inventory) in
    After-ok (λ y. HasLevel w (on_hand w s.inventory -ℤ sent_back w y.items)) e (after.at s refl)
