-- ===== src/Purchases/EditKeeps.antt =====
-- What survives the edit of a purchase.
use kapra_os.Prelude.{ℕ, ℤ, Option, none, some, List, [], ◌∷◌}
use kapra_os.Tables.{Db, Purchase, PurchaseItem, Text}
use kapra_os.Session.Keeps.{
  Keeps, Keeps-modify, Keeps-pure, Keeps-guard, Keeps-lift, Keeps-gets, Keeps-if, ◌▹◌,
}
use kapra_os.Sales.Edit.{Field}
use kapra_os.Sales.Invariants.Create.{Survives}
use kapra_os.Purchases.Lines.{PurchaseItemInput, PurchaseLine}
use kapra_os.Purchases.Keeps.{
  IgnoresPurchases, get_supplier-keeps, validate_variants-keeps, assert_no_returns-keeps,
  get_purchase-keeps,
}
use kapra_os.Purchases.Edit.{
  PurchaseUpdate, check_supplier, check_number, new_number, new_lines, push_delta, push_deltas,
  make_items, replace_items, save_purchase, move_payments, update_purchase,
}

module _ {P : Db → Type 0} (kept : IgnoresPurchases P) where
  check_supplier-keeps : (shop_id : ℕ) (id : Option ℕ) → Keeps P (check_supplier shop_id id)
  check_supplier-keeps shop_id none = Keeps-pure tt
  check_supplier-keeps shop_id (some id) =
      get_supplier-keeps kept shop_id id ▹ λ supplier. Keeps-pure tt

  check_number-keeps :
      (shop_id : ℕ) (x : Purchase) (t : Option Text) → Keeps P (check_number shop_id x t)
  check_number-keeps shop_id x none = Keeps-pure _
  check_number-keeps shop_id x (some t) =
      Keeps-if _ _ _ (Keeps-pure _) (Keeps-gets _ ▹ λ clash. Keeps-guard _ _ ▹ λ _. Keeps-pure _)

  new_number-keeps :
      (shop_id : ℕ) (x : Purchase) (t : Field Text) → Keeps P (new_number shop_id x t)
  unfolding new_number
  new_number-keeps shop_id x Field.leave = Keeps-pure _
  new_number-keeps shop_id x (Field.assign raw) = Keeps-lift _ ▹ λ t. check_number-keeps shop_id x t

  new_lines-keeps :
      (shop_id : ℕ) (items : Option (List PurchaseItemInput)) → Keeps P (new_lines shop_id items)
  new_lines-keeps shop_id none = Keeps-pure none
  new_lines-keeps shop_id (some items) = Keeps-guard _ _ ▹ λ _.
      Keeps-lift _ ▹ λ lines. validate_variants-keeps kept shop_id lines ▹ λ _. Keeps-pure _

  make_items-keeps : (lines : List PurchaseLine) → Keeps P (make_items lines)
  unfolding make_items
  make_items-keeps [] = Keeps-pure []
  make_items-keeps (line ∷ lines) =
      kept.others.uuid ▹ λ id. Keeps-guard _ _ ▹ λ _. make_items-keeps lines ▹ λ items. Keeps-pure _

  save_purchase-keeps : (x : Purchase) → Keeps P (save_purchase x)
  unfolding save_purchase
  save_purchase-keeps x = Keeps-guard _ _ ▹ λ _. Keeps-modify _ λ s h. kept.tables s _ s.payments h

  move_payments-keeps : (x : Purchase) (id : Option ℕ) → Keeps P (move_payments x id)
  move_payments-keeps x none = Keeps-pure tt
  move_payments-keeps x (some id) = Keeps-modify _ λ s h. kept.tables s s.purchases _ h

module _ {P : Db → Type 0} (kept : IgnoresPurchases P) (stock : Survives P) where
  push_delta-keeps :
      (shop_id id v : ℕ) (delta cost : ℤ) → Keeps P (push_delta shop_id id v delta cost)
  unfolding push_delta
  push_delta-keeps shop_id id v delta cost =
      Keeps-if _ _ _ (stock.add _ ▹ λ _. Keeps-pure tt)
        (Keeps-if _ _ _ (stock.remove _ ▹ λ _. Keeps-pure tt) (Keeps-pure tt))

  push_deltas-keeps :
      (shop_id id : ℕ) (items : List PurchaseItem) (lines : List PurchaseLine) (ids : List ℕ)
      → Keeps P (push_deltas shop_id id items lines ids)
  unfolding push_deltas
  push_deltas-keeps shop_id id items lines [] = Keeps-pure tt
  push_deltas-keeps shop_id id items lines (v ∷ ids) =
      push_delta-keeps shop_id id v _ _ ▹ λ _. push_deltas-keeps shop_id id items lines ids

  replace_items-keeps :
      (shop_id : ℕ) (x : Purchase) (lines : Option (List PurchaseLine))
      → Keeps P (replace_items shop_id x lines)
  unfolding replace_items
  replace_items-keeps shop_id x none = Keeps-pure _
  replace_items-keeps shop_id x (some lines) =
      push_deltas-keeps shop_id x.id x.items lines _ ▹ λ _. make_items-keeps kept lines

  pub update_purchase-keeps :
      (shop_id id : ℕ) (u : PurchaseUpdate) → Keeps P (update_purchase shop_id id u)
  unfolding update_purchase
  update_purchase-keeps shop_id id u = get_purchase-keeps kept shop_id id ▹ λ x.
      assert_no_returns-keeps kept x.id ▹ λ _.
      check_supplier-keeps kept shop_id u.supplier_id ▹ λ _.
      new_number-keeps kept shop_id x u.invoice_number ▹ λ number.
      new_lines-keeps kept shop_id u.items ▹ λ lines. Keeps-guard _ _ ▹ λ _. Keeps-guard _ _ ▹ λ _.
      replace_items-keeps shop_id x lines ▹ λ items. save_purchase-keeps kept _ ▹ λ _.
      move_payments-keeps kept x u.supplier_id ▹ λ _.
      kept.others.delete _ _ _ ▹ λ _. kept.posted _ none ▹ λ _. Keeps-pure _
