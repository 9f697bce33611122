-- ===== src/Returns/Keeps.antt =====
-- What survives the returns.
use kapra_os.Prelude.{ℕ, ℤ, refl, String, Option, List, [], ◌∷◌}
use kapra_os.Tables.{Db, Sale, Purchase}
use kapra_os.Session.Keeps.{
  Keeps, Keeps-modify, Keeps-pure, Keeps-lift, Keeps-gets, Keeps-or_raise, Keeps-guard, ◌▹◌,
}
use kapra_os.Documents.{IgnoresDocuments}
use kapra_os.Sales.Invariants.Create.{Survives}
use kapra_os.Purchases.Void.{get_purchase_for_update}
use kapra_os.Returns.SaleLines as SaleLines
use kapra_os.Returns.PurchaseLines as PurchaseLines
use kapra_os.Returns.OfSale.{
  ReturnRequest, get_sale_for_return, put_line, put_lines, write_sale_return, return_goods,
  create_sale_return,
}
use kapra_os.Returns.OfPurchase.{
  send_line, send_lines, write_purchase_return, create_purchase_return,
}

module _ {P : Db → Type 0} (kept : IgnoresDocuments P) where
  pub get_sale_for_return-keeps : (shop_id id : ℕ) → Keeps P (get_sale_for_return shop_id id)
  unfolding get_sale_for_return
  get_sale_for_return-keeps shop_id id = Keeps-gets _ ▹ λ found.
      Keeps-or_raise found _ ▹ λ sale. Keeps-guard _ _ ▹ λ _. Keeps-pure sale

  pub get_purchase-keeps : (shop_id id : ℕ) → Keeps P (get_purchase_for_update shop_id id)
  unfolding get_purchase_for_update
  get_purchase-keeps shop_id id = Keeps-gets _ ▹ λ found. Keeps-or_raise found _

module _ {P : Db → Type 0} (kept : IgnoresDocuments P) (stock : Survives P) where
  put_lines-keeps :
      (shop_id id : ℕ) (notes : String) (lines : List SaleLines.PreparedLine)
      → Keeps P (put_lines shop_id id notes lines)
  unfolding put_lines put_line
  put_lines-keeps shop_id id notes [] = Keeps-pure []
  put_lines-keeps shop_id id notes (line ∷ lines) =
      (kept.others.uuid ▹ λ i. Keeps-guard _ _ ▹ λ _. stock.add _ ▹ λ _. Keeps-pure _) ▹ λ item.
      put_lines-keeps shop_id id notes lines ▹ λ items. Keeps-pure _

  write_sale_return-keeps :
      (shop_id : ℕ) (sale : Sale) (lines : List SaleLines.PreparedLine) (due : ℤ)
      (notes : Option String)
      → Keeps P (write_sale_return shop_id sale lines due notes)
  unfolding write_sale_return
  write_sale_return-keeps shop_id sale lines due notes = kept.others.uuid ▹ λ id.
      Keeps-gets _ ▹ λ now. Keeps-guard _ _ ▹ λ _. put_lines-keeps shop_id id _ lines ▹ λ items.
      Keeps-modify _ (λ s h. kept.unread s _ refl refl refl refl h) ▹ λ _.
      kept.sale_return sale id _ _ _ _ _ ▹ λ _. Keeps-pure _

  pub create_sale_return-keeps : (r : ReturnRequest) → Keeps P (create_sale_return r)
  unfolding create_sale_return return_goods
  create_sale_return-keeps r = Keeps-guard _ _ ▹ λ _. Keeps-guard _ _ ▹ λ _.
      get_sale_for_return-keeps kept r.shop_id r.document_id ▹ λ sale. Keeps-lift _ ▹ λ combined.
      Keeps-guard _ _ ▹ λ _. Keeps-gets _ ▹ λ returns. Keeps-lift _ ▹ λ lines.
      Keeps-guard _ _ ▹ λ _. write_sale_return-keeps r.shop_id sale lines _ r.notes

  send_lines-keeps :
      (shop_id id : ℕ) (notes : String) (lines : List PurchaseLines.PreparedLine)
      → Keeps P (send_lines shop_id id notes lines)
  unfolding send_lines send_line
  send_lines-keeps shop_id id notes [] = Keeps-pure []
  send_lines-keeps shop_id id notes (line ∷ lines) =
      (kept.others.uuid ▹ λ i. Keeps-guard _ _ ▹ λ _. stock.remove _ ▹ λ _. Keeps-pure _) ▹ λ item.
      send_lines-keeps shop_id id notes lines ▹ λ items. Keeps-pure _

  write_purchase_return-keeps :
      (shop_id : ℕ) (purchase : Purchase) (lines : List PurchaseLines.PreparedLine)
      (notes : Option String)
      → Keeps P (write_purchase_return shop_id purchase lines notes)
  unfolding write_purchase_return
  write_purchase_return-keeps shop_id purchase lines notes = kept.others.uuid ▹ λ id.
      Keeps-gets _ ▹ λ now. send_lines-keeps shop_id id _ lines ▹ λ items.
      Keeps-modify _ (λ s h. kept.unread s _ refl refl refl refl h) ▹ λ _.
      kept.purchase_return shop_id id _ _ ▹ λ _. Keeps-pure _

  pub create_purchase_return-keeps : (r : ReturnRequest) → Keeps P (create_purchase_return r)
  unfolding create_purchase_return
  create_purchase_return-keeps r = Keeps-guard _ _ ▹ λ _. Keeps-guard _ _ ▹ λ _.
      get_purchase-keeps kept r.shop_id r.document_id ▹ λ purchase. Keeps-lift _ ▹ λ combined.
      Keeps-guard _ _ ▹ λ _. Keeps-gets _ ▹ λ returns. Keeps-lift _ ▹ λ lines.
      Keeps-guard _ _ ▹ λ _. write_purchase_return-keeps r.shop_id purchase lines r.notes
