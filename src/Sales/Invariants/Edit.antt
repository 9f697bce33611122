-- ===== src/Sales/Invariants/Edit.antt =====
-- What survives the edit and the void of a sale.
use kapra_os.Prelude.{ℕ, ℤ, Option, none, some, List, [], ◌∷◌}
use kapra_os.Tables.{Db, Sale, SaleItem, Payment, Text}
use kapra_os.Session.Keeps.{
  Keeps, Keeps-modify, Keeps-pure, Keeps-guard, Keeps-lift, Keeps-gets, Keeps-if, ◌▹◌,
  Keeps-or_raise,
}
use kapra_os.Sales.Lines.{SaleItemInput, NormalisedItem}
use kapra_os.Sales.Edit.{
  Field, SaleUpdate, get_sale_for_update, assert_sale_has_no_returns, check_customer, check_number,
  new_number, new_lines, push_delta, push_deltas, snapshot_line, snapshot_lines, replace_items,
  save_sale, move_payments, repost_sale, update_sale, put_back, delete_payment_postings,
  delete_found, delete_sale,
}
use kapra_os.Sales.Invariants.Create.{
  Ignores, Survives, get_customer_if-keeps, validate_variants-keeps,
}

module _ {P : Db → Type 0} (kept : Ignores P) where
  pub get_sale_for_update-keeps :
      (shop_id sale_id : ℕ) → Keeps P (get_sale_for_update shop_id sale_id)
  unfolding get_sale_for_update
  get_sale_for_update-keeps shop_id sale_id = Keeps-gets _ ▹ λ found. Keeps-or_raise found _

  pub assert_no_returns-keeps : (sale_id : ℕ) → Keeps P (assert_sale_has_no_returns sale_id)
  unfolding assert_sale_has_no_returns
  assert_no_returns-keeps sale_id = Keeps-gets _ ▹ λ returned. Keeps-guard _ _

  pub check_customer-keeps : (shop_id : ℕ) (c : Field ℕ) → Keeps P (check_customer shop_id c)
  check_customer-keeps shop_id Field.leave = Keeps-pure tt
  check_customer-keeps shop_id (Field.assign new) = get_customer_if-keeps kept shop_id new

  pub check_number-keeps : (sale : Sale) (t : Option Text) → Keeps P (check_number sale t)
  check_number-keeps sale none = Keeps-pure _
  check_number-keeps sale (some t) =
      Keeps-if _ _ _ (Keeps-pure _) (Keeps-gets _ ▹ λ clash. Keeps-guard _ _ ▹ λ _. Keeps-pure _)

  pub new_number-keeps : (sale : Sale) (t : Field Text) → Keeps P (new_number sale t)
  unfolding new_number
  new_number-keeps sale Field.leave = Keeps-pure _
  new_number-keeps sale (Field.assign raw) = Keeps-lift _ ▹ λ t. check_number-keeps sale t

  pub new_lines-keeps :
      (shop_id : ℕ) (items : Option (List SaleItemInput)) → Keeps P (new_lines shop_id items)
  new_lines-keeps shop_id none = Keeps-pure none
  new_lines-keeps shop_id (some items) = Keeps-guard _ _ ▹ λ _.
      Keeps-lift _ ▹ λ lines. validate_variants-keeps kept shop_id lines ▹ λ _. Keeps-pure _

  pub save_sale-keeps : (sale : Sale) → Keeps P (save_sale sale)
  unfolding save_sale
  save_sale-keeps sale = Keeps-guard _ _ ▹ λ _. Keeps-modify _ λ s h. kept.rows s _ s.payments h

  pub move_payments-keeps : (sale_id : ℕ) (c : Field ℕ) → Keeps P (move_payments sale_id c)
  move_payments-keeps sale_id Field.leave = Keeps-pure tt
  move_payments-keeps sale_id (Field.assign new) = Keeps-modify _ λ s h. kept.rows s s.sales _ h

  pub repost_sale-keeps : (sale : Sale) → Keeps P (repost_sale sale)
  unfolding repost_sale
  repost_sale-keeps sale =
      kept.delete _ _ _ ▹ λ _. kept.sale sale none ▹ λ _. kept.cogs sale none ▹ λ _. Keeps-pure tt

  pub delete_payment_postings-keeps :
      (shop_id : ℕ) (payments : List Payment) → Keeps P (delete_payment_postings shop_id payments)
  unfolding delete_payment_postings
  delete_payment_postings-keeps shop_id [] = Keeps-pure tt
  delete_payment_postings-keeps shop_id (p ∷ payments) =
      kept.delete _ _ _ ▹ λ _. delete_payment_postings-keeps shop_id payments

module _ {P : Db → Type 0} (kept : Survives P) where
  push_delta-keeps :
      (shop_id sale_id v : ℕ) (delta : ℤ) → Keeps P (push_delta shop_id sale_id v delta)
  unfolding push_delta
  push_delta-keeps shop_id sale_id v delta =
      Keeps-if _ _ _ (kept.remove _ ▹ λ _. Keeps-pure tt)
        (Keeps-if _ _ _ (kept.add _ ▹ λ _. Keeps-pure tt) (Keeps-pure tt))

  push_deltas-keeps :
      (shop_id sale_id : ℕ) (items : List SaleItem) (lines : List NormalisedItem) (ids : List ℕ)
      → Keeps P (push_deltas shop_id sale_id items lines ids)
  unfolding push_deltas
  push_deltas-keeps shop_id sale_id items lines [] = Keeps-pure tt
  push_deltas-keeps shop_id sale_id items lines (v ∷ ids) =
      push_delta-keeps shop_id sale_id v _ ▹ λ _. push_deltas-keeps shop_id sale_id items lines ids

  snapshot_lines-keeps :
      (shop_id : ℕ) (lines : List NormalisedItem) → Keeps P (snapshot_lines shop_id lines)
  unfolding snapshot_lines snapshot_line
  snapshot_lines-keeps shop_id [] = Keeps-pure []
  snapshot_lines-keeps shop_id (line ∷ lines) =
      (kept.cost shop_id line.variant_id ▹ λ average.
      kept.others.uuid ▹ λ id. Keeps-guard _ _ ▹ λ _. Keeps-pure _)
      ▹ λ item. snapshot_lines-keeps shop_id lines ▹ λ items. Keeps-pure _

  replace_items-keeps :
      (sale : Sale) (lines : Option (List NormalisedItem)) → Keeps P (replace_items sale lines)
  unfolding replace_items
  replace_items-keeps sale none = Keeps-pure _
  replace_items-keeps sale (some lines) =
      push_deltas-keeps sale.shop_id sale.id sale.items lines _ ▹ λ _.
      snapshot_lines-keeps sale.shop_id lines

  pub update_sale-keeps :
      (shop_id sale_id : ℕ) (u : SaleUpdate) → Keeps P (update_sale shop_id sale_id u)
  unfolding update_sale
  update_sale-keeps shop_id sale_id u =
      get_sale_for_update-keeps kept.others shop_id sale_id ▹ λ sale. Keeps-guard _ _ ▹ λ _.
      assert_no_returns-keeps kept.others sale.id ▹ λ _.
      check_customer-keeps kept.others shop_id u.customer_id ▹ λ _.
      new_number-keeps kept.others sale u.invoice_number ▹ λ number.
      new_lines-keeps kept.others shop_id u.items ▹ λ lines. Keeps-guard _ _ ▹ λ _.
      Keeps-guard _ _ ▹ λ _. replace_items-keeps sale lines ▹ λ items.
      save_sale-keeps kept.others _ ▹ λ _.
      move_payments-keeps kept.others sale.id u.customer_id ▹ λ _.
      repost_sale-keeps kept.others _ ▹ λ _. Keeps-pure _

  put_back-keeps :
      (shop_id sale_id : ℕ) (items : List SaleItem) → Keeps P (put_back shop_id sale_id items)
  unfolding put_back
  put_back-keeps shop_id sale_id [] = Keeps-pure tt
  put_back-keeps shop_id sale_id (x ∷ items) =
      kept.add _ ▹ λ _. put_back-keeps shop_id sale_id items

  pub delete_sale-keeps : (shop_id sale_id : ℕ) → Keeps P (delete_sale shop_id sale_id)
  unfolding delete_sale delete_found
  delete_sale-keeps shop_id sale_id =
      get_sale_for_update-keeps kept.others shop_id sale_id ▹ λ sale.
      assert_no_returns-keeps kept.others sale.id ▹ λ _.
      put_back-keeps shop_id sale.id sale.items ▹ λ _. Keeps-gets _ ▹ λ payments.
      kept.others.delete _ _ _ ▹ λ _.
      delete_payment_postings-keeps kept.others shop_id payments ▹ λ _.
      Keeps-modify _ λ s h. kept.others.rows s _ _ h
