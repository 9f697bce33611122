-- ===== src/Payments/Keeps.antt =====
-- Recording and voiding payments keep the books balanced and the stock reconciled.
use kapra_os.Prelude.{ℕ, ℤ, refl, Option, none, some}
use kapra_os.Tables.{Db, Sale, Purchase}
use kapra_os.Session.Keeps.{
  Keeps, Keeps-modify, Keeps-pure, Keeps-guard, Keeps-gets, Keeps-or_raise, ◌▹◌,
}
use kapra_os.Documents.{IgnoresDocuments}
use kapra_os.Sales.Create.{get_customer}
use kapra_os.Sales.Edit.{save_sale}
use kapra_os.Purchases.Create.{get_supplier}
use kapra_os.Purchases.Edit.{save_purchase}
use kapra_os.Receivables.Settle as Receivables
use kapra_os.Receivables.Settle.{
  PaymentRequest, get_settleable_sale, record_customer_payment, write_customer_payment,
}
use kapra_os.Payables.Settle as Payables
use kapra_os.Payables.Settle.{
  get_settleable_purchase, record_supplier_payment, write_supplier_payment,
}
use kapra_os.Payments.Void.{
  roll_back_sale, roll_back_purchase, save_found_sale, save_found_purchase, void_payment,
}

module _ {P : Db → Type 0} (kept : IgnoresDocuments P) where
  save_sale-keeps : (x : Sale) → Keeps P (save_sale x)
  unfolding save_sale
  save_sale-keeps x =
      Keeps-guard _ _ ▹ λ _. Keeps-modify _ λ s h. kept.unread s _ refl refl refl refl h

  save_purchase-keeps : (x : Purchase) → Keeps P (save_purchase x)
  unfolding save_purchase
  save_purchase-keeps x =
      Keeps-guard _ _ ▹ λ _. Keeps-modify _ λ s h. kept.unread s _ refl refl refl refl h

  settleable_sale-keeps :
      (shop_id id : ℕ) (document : Option ℕ)
      → Keeps P (Receivables.settleable_if shop_id id document)
  unfolding Receivables.settleable_if get_settleable_sale
  settleable_sale-keeps shop_id id none = Keeps-pure none
  settleable_sale-keeps shop_id id (some k) =
      (Keeps-gets _ ▹ λ found.
      Keeps-or_raise _ _ ▹ λ sale. Keeps-guard _ _ ▹ λ _. Keeps-guard _ _ ▹ λ _. Keeps-pure sale)
      ▹ λ sale. Keeps-pure (some sale)

  settleable_purchase-keeps :
      (shop_id id : ℕ) (document : Option ℕ) → Keeps P (Payables.settleable_if shop_id id document)
  unfolding Payables.settleable_if get_settleable_purchase
  settleable_purchase-keeps shop_id id none = Keeps-pure none
  settleable_purchase-keeps shop_id id (some k) =
      (Keeps-gets _ ▹ λ found. Keeps-or_raise _ _ ▹ λ x. Keeps-guard _ _ ▹ λ _. Keeps-pure x) ▹ λ x.
      Keeps-pure (some x)

  pub allocate_sale-keeps : (x : Option Sale) (amount : ℤ) → Keeps P (Receivables.allocate x amount)
  unfolding Receivables.allocate
  allocate_sale-keeps none amount = Keeps-pure tt
  allocate_sale-keeps (some x) amount = save_sale-keeps _

  allocate_purchase-keeps :
      (x : Option Purchase) (amount : ℤ) → Keeps P (Payables.allocate x amount)
  unfolding Payables.allocate
  allocate_purchase-keeps none amount = Keeps-pure tt
  allocate_purchase-keeps (some x) amount = save_purchase-keeps _

  pub record_customer_payment-keeps : (r : PaymentRequest) → Keeps P (record_customer_payment r)
  unfolding record_customer_payment write_customer_payment get_customer
  record_customer_payment-keeps r = (Keeps-gets _ ▹ λ found. Keeps-or_raise _ _) ▹ λ _.
      Keeps-guard _ _ ▹ λ _. settleable_sale-keeps r.shop_id r.party_id r.document_id ▹ λ sale.
      Keeps-gets _ ▹ λ balance. Keeps-guard _ _ ▹ λ _. Keeps-guard _ _ ▹ λ _.
      kept.others.uuid ▹ λ id. Keeps-gets _ ▹ λ now. allocate_sale-keeps sale _ ▹ λ _.
      Keeps-modify _ (λ s h. kept.unread s _ refl refl refl refl h) ▹ λ _.
      kept.customer_payment _ none ▹ λ _. Keeps-pure _

  pub record_supplier_payment-keeps : (r : PaymentRequest) → Keeps P (record_supplier_payment r)
  unfolding record_supplier_payment write_supplier_payment get_supplier
  record_supplier_payment-keeps r = (Keeps-gets _ ▹ λ found. Keeps-or_raise _ _) ▹ λ _.
      Keeps-guard _ _ ▹ λ _. settleable_purchase-keeps r.shop_id r.party_id r.document_id ▹ λ x.
      Keeps-gets _ ▹ λ balance. Keeps-guard _ _ ▹ λ _. Keeps-guard _ _ ▹ λ _.
      kept.others.uuid ▹ λ id. Keeps-gets _ ▹ λ now. allocate_purchase-keeps x _ ▹ λ _.
      Keeps-modify _ (λ s h. kept.unread s _ refl refl refl refl h) ▹ λ _.
      kept.supplier_payment _ none ▹ λ _. Keeps-pure _

  save_found_sale-keeps : (x : Option Sale) (amount : ℤ) → Keeps P (save_found_sale x amount)
  save_found_sale-keeps none amount = Keeps-pure tt
  save_found_sale-keeps (some x) amount = save_sale-keeps _

  save_found_purchase-keeps :
      (x : Option Purchase) (amount : ℤ) → Keeps P (save_found_purchase x amount)
  save_found_purchase-keeps none amount = Keeps-pure tt
  save_found_purchase-keeps (some x) amount = save_purchase-keeps _

  roll_back_sale-keeps :
      (shop_id : ℕ) (o : Option ℕ) (amount : ℤ) → Keeps P (roll_back_sale shop_id o amount)
  unfolding roll_back_sale
  roll_back_sale-keeps shop_id none amount = Keeps-pure tt
  roll_back_sale-keeps shop_id (some id) amount =
      Keeps-gets _ ▹ λ found. save_found_sale-keeps found amount

  roll_back_purchase-keeps :
      (shop_id : ℕ) (o : Option ℕ) (amount : ℤ) → Keeps P (roll_back_purchase shop_id o amount)
  unfolding roll_back_purchase
  roll_back_purchase-keeps shop_id none amount = Keeps-pure tt
  roll_back_purchase-keeps shop_id (some id) amount =
      Keeps-gets _ ▹ λ found. save_found_purchase-keeps found amount

  pub void_payment-keeps : (shop_id id : ℕ) → Keeps P (void_payment shop_id id)
  unfolding void_payment
  void_payment-keeps shop_id id = Keeps-gets _ ▹ λ found. Keeps-or_raise _ _ ▹ λ p.
      roll_back_sale-keeps shop_id p.sale_id p.amount ▹ λ _.
      roll_back_purchase-keeps shop_id p.purchase_id p.amount ▹ λ _.
      kept.others.delete _ _ _ ▹ λ _. Keeps-modify _ λ s h. kept.unread s _ refl refl refl refl h
