-- ===== src/Purchases/Keeps.antt =====
-- Receiving and voiding a purchase keep the books balanced and the stock reconciled.
use kapra_os.Prelude.{ℕ, ℤ, refl, String, Option, none, List, [], ◌∷◌}
use kapra_os.Tables.{Db, Purchase, PurchaseItem, Payment}
use kapra_os.Session.Keeps.{
  Keeps, Keeps-modify, Keeps-pure, Keeps-guard, Keeps-lift, Keeps-gets, Keeps-or_raise, ◌▹◌,
}
use kapra_os.Accounting.Books.Sums.{IsBalanced}
use kapra_os.Accounting.Books.Posts.{post_purchase-IsBalanced}
use kapra_os.Accounting.Frame.{ReadsStock, ReadsStock-IgnoresBooks, post_purchase-keeps}
use kapra_os.Accounting.Posts.{post_purchase}
use kapra_os.Sales.Invariants.Create.{Ignores, Survives}
use kapra_os.Sales.Invariants.Both.{IsBalanced-Survives, ReadsStock-Ignores, IsBalanced-ReadsBooks}
use kapra_os.Purchases.Lines.{PurchaseLine}
use kapra_os.Purchases.Create.{
  PurchaseRequest, get_supplier, validate_variants, check_purchase, receive_line, receive_lines,
  write_purchase, create_purchase,
}
use kapra_os.Purchases.Void.{
  get_purchase_for_update, assert_purchase_has_no_returns, pull_out, delete_supplier_postings,
  void_purchase, delete_purchase,
}

-- A property that survives what a purchase writes beside the stock.
pub record IgnoresPurchases (P : Db → Type 0) : Type 0 where
  pub others : Ignores P
  pub posted : (x : Purchase) (description : Option String) → Keeps P (post_purchase x description)
  -- It does not read the purchases or the payments.
  pub tables :
      (s : Db) (purchases : List Purchase) (payments : List Payment)
      → P s
      → P (record s { purchases = purchases; payments = payments })

module _ {P : Db → Type 0} (kept : IgnoresPurchases P) where
  pub get_supplier-keeps : (shop_id id : ℕ) → Keeps P (get_supplier shop_id id)
  unfolding get_supplier
  get_supplier-keeps shop_id id = Keeps-gets _ ▹ λ found. Keeps-or_raise found _

  pub validate_variants-keeps :
      (shop_id : ℕ) (lines : List PurchaseLine) → Keeps P (validate_variants shop_id lines)
  unfolding validate_variants
  validate_variants-keeps shop_id lines = Keeps-gets _ ▹ λ valid. Keeps-guard _ _

  pub check_purchase-keeps : (x : Purchase) → Keeps P (check_purchase x)
  unfolding check_purchase
  check_purchase-keeps x = Keeps-guard _ _ ▹ λ _. Keeps-gets _ ▹ λ free. Keeps-guard _ _

  pub assert_no_returns-keeps : (id : ℕ) → Keeps P (assert_purchase_has_no_returns id)
  unfolding assert_purchase_has_no_returns
  assert_no_returns-keeps id = Keeps-gets _ ▹ λ returned. Keeps-guard _ _

  pub get_purchase-keeps : (shop_id id : ℕ) → Keeps P (get_purchase_for_update shop_id id)
  unfolding get_purchase_for_update
  get_purchase-keeps shop_id id = Keeps-gets _ ▹ λ found. Keeps-or_raise found _

  pub delete_supplier_postings-keeps :
      (shop_id : ℕ) (payments : List Payment) → Keeps P (delete_supplier_postings shop_id payments)
  unfolding delete_supplier_postings
  delete_supplier_postings-keeps shop_id [] = Keeps-pure tt
  delete_supplier_postings-keeps shop_id (p ∷ payments) =
      kept.others.delete _ _ _ ▹ λ _. delete_supplier_postings-keeps shop_id payments

module _ {P : Db → Type 0} (kept : IgnoresPurchases P) (stock : Survives P) where
  receive_lines-keeps :
      (shop_id purchase_id : ℕ) (lines : List PurchaseLine)
      → Keeps P (receive_lines shop_id purchase_id lines)
  unfolding receive_lines receive_line
  receive_lines-keeps shop_id purchase_id [] = Keeps-pure []
  receive_lines-keeps shop_id purchase_id (line ∷ lines) =
      (kept.others.uuid ▹ λ id. Keeps-guard _ _ ▹ λ _. stock.add _ ▹ λ _. Keeps-pure _) ▹ λ item.
      receive_lines-keeps shop_id purchase_id lines ▹ λ items. Keeps-pure _

  write_purchase-keeps :
      (r : PurchaseRequest) (lines : List PurchaseLine) (discount paid_amount : ℤ)
      → Keeps P (write_purchase r lines discount paid_amount)
  unfolding write_purchase
  write_purchase-keeps r lines discount paid_amount = kept.others.uuid ▹ λ id. Keeps-gets _ ▹ λ now.
      check_purchase-keeps kept _ ▹ λ _. receive_lines-keeps r.shop_id id lines ▹ λ items.
      Keeps-modify _ (λ s h. kept.tables s _ s.payments h) ▹ λ _.
      kept.posted _ none ▹ λ _. Keeps-pure _

  pub create_purchase-keeps : (r : PurchaseRequest) → Keeps P (create_purchase r)
  unfolding create_purchase
  create_purchase-keeps r = Keeps-guard _ _ ▹ λ _.
      get_supplier-keeps kept r.shop_id r.supplier_id ▹ λ _. Keeps-lift _ ▹ λ lines.
      validate_variants-keeps kept r.shop_id lines ▹ λ _.
      Keeps-guard _ _ ▹ λ _. Keeps-guard _ _ ▹ λ _. write_purchase-keeps r lines _ _

  pull_out-keeps :
      (shop_id purchase_id : ℕ) (items : List PurchaseItem)
      → Keeps P (pull_out shop_id purchase_id items)
  unfolding pull_out
  pull_out-keeps shop_id purchase_id [] = Keeps-pure tt
  pull_out-keeps shop_id purchase_id (x ∷ items) =
      stock.remove _ ▹ λ _. pull_out-keeps shop_id purchase_id items

  pub delete_purchase-keeps :
      (shop_id purchase_id : ℕ) → Keeps P (delete_purchase shop_id purchase_id)
  unfolding delete_purchase void_purchase
  delete_purchase-keeps shop_id purchase_id =
      get_purchase-keeps kept shop_id purchase_id ▹ λ purchase.
      assert_no_returns-keeps kept purchase.id ▹ λ _.
      pull_out-keeps shop_id purchase.id purchase.items ▹ λ _. Keeps-gets _ ▹ λ payments.
      kept.others.delete _ _ _ ▹ λ _. delete_supplier_postings-keeps kept shop_id payments ▹ λ _.
      Keeps-modify _ λ s h. kept.tables s _ _ h

-- A property of the stock alone.
pub ReadsStock-IgnoresPurchases : {P : Db → Type 0} → ReadsStock P → IgnoresPurchases P
ReadsStock-IgnoresPurchases same = record {
  others = ReadsStock-Ignores same;
  posted = post_purchase-keeps (ReadsStock-IgnoresBooks same);
  tables = λ s purchases payments h. same s _ refl refl h;
}

pub IsBalanced-IgnoresPurchases : IgnoresPurchases IsBalanced
IsBalanced-IgnoresPurchases = record {
  others = IsBalanced-Survives.others;
  posted = λ x d. post_purchase-IsBalanced d x;
  tables = λ s purchases payments h. IsBalanced-ReadsBooks s _ refl refl h;
}
