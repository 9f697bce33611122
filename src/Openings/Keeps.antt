-- ===== src/Openings/Keeps.antt =====
-- Posting opening stock keeps the books balanced and the stock reconciled.
use kapra_os.Prelude.{ℕ, refl, Option, none, some, List, [], ◌∷◌}
use kapra_os.Tables.{Db, OpeningInventoryBatch, Text}
use kapra_os.Session.Keeps.{
  Keeps, Keeps-modify, Keeps-pure, Keeps-guard, Keeps-gets, Keeps-lift, ◌▹◌,
}
use kapra_os.Documents.{IgnoresDocuments}
use kapra_os.Sales.Invariants.Create.{Survives, get_shop-keeps}
use kapra_os.Openings.Lines.{OpeningLine}
use kapra_os.Openings.Post.{
  OpeningRequest, open_lines, write_batch, resolve_key, post_opening_inventory,
}

module _ {P : Db → Type 0} (kept : IgnoresDocuments P) (stock : Survives P) where
  open_lines-keeps :
      (shop_id id : ℕ) (lines : List OpeningLine) → Keeps P (open_lines shop_id id lines)
  unfolding open_lines
  open_lines-keeps shop_id id [] = Keeps-pure []
  open_lines-keeps shop_id id (x ∷ lines) = stock.add _ ▹ λ _.
      Keeps-guard _ _ ▹ λ _. open_lines-keeps shop_id id lines ▹ λ entries. Keeps-pure _

  write_batch-keeps :
      (r : OpeningRequest) (key : Text) (notes : Option Text) (lines : List OpeningLine)
      → Keeps P (write_batch r key notes lines)
  unfolding write_batch
  write_batch-keeps r key notes lines = Keeps-gets _ ▹ λ owned. Keeps-guard _ _ ▹ λ _.
      Keeps-gets _ ▹ λ opened. Keeps-guard _ _ ▹ λ _. Keeps-guard _ _ ▹ λ _.
      kept.others.uuid ▹ λ id. open_lines-keeps r.shop_id id lines ▹ λ entries.
      Keeps-modify _ (λ s h. kept.unread s _ refl refl refl refl h) ▹ λ _.
      kept.opening r.shop_id id _ _ ▹ λ _. Keeps-pure _

  resolve_key-keeps :
      (r : OpeningRequest) (key : Text) (notes : Option Text) (lines : List OpeningLine)
      (o : Option OpeningInventoryBatch)
      → Keeps P (resolve_key r key notes lines o)
  resolve_key-keeps r key notes lines none = write_batch-keeps r key notes lines
  resolve_key-keeps r key notes lines (some b) = Keeps-guard _ _ ▹ λ _. Keeps-pure b

  pub post_opening_inventory-keeps : (r : OpeningRequest) → Keeps P (post_opening_inventory r)
  unfolding post_opening_inventory
  post_opening_inventory-keeps r = Keeps-lift _ ▹ λ key. Keeps-lift _ ▹ λ notes.
      Keeps-guard _ _ ▹ λ _. Keeps-lift _ ▹ λ lines. get_shop-keeps kept.others r.shop_id ▹ λ _.
      Keeps-gets _ ▹ λ existing. resolve_key-keeps r key notes lines existing
