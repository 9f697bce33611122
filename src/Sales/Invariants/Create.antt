-- ===== src/Sales/Invariants/Create.antt =====
-- What survives the creation of a sale.
use kapra_os.Prelude.{ℕ, ℤ, String, Option, none, some, List, [], ◌∷◌, ◌++◌}
use kapra_os.Tables.{Db, Sale, Payment, Text, Reference}
use kapra_os.Session.{new_uuid}
use kapra_os.Session.Keeps.{
  Keeps-gets, Keeps, Keeps-bind, Keeps-modify, Keeps-pure, Keeps-guard, Keeps-lift, ◌▹◌,
  keeps_rules,
}
use kapra_os.Inventory.{Change, add_stock, remove_stock, get_weighted_average_cost}
use kapra_os.Accounting.Group.{delete_postings_for_reference}
use kapra_os.Accounting.Posts.{post_sale, post_cogs}
use kapra_os.Sales.Lines.{NormalisedItem, NormalisedPayment}
use kapra_os.Sales.Create.{
  SaleRequest, get_shop, get_customer, get_customer_if, validate_variants, allocate_invoice_number,
  allocate_if, take_line, take_lines, check_header, insert_sale, add_payments, write_sale,
  create_sale,
}

-- A property that survives what the creation of a sale writes beside the stock.
pub record Ignores (P : Db → Type 0) : Type 0 where
  pub uuid : Keeps P new_uuid
  pub delete :
      (shop_id reference_id : ℕ) (kinds : Option (List Reference))
      → Keeps P (delete_postings_for_reference shop_id reference_id kinds)
  pub sale : (x : Sale) (description : Option String) → Keeps P (post_sale x description)
  pub cogs : (x : Sale) (description : Option String) → Keeps P (post_cogs x description)
  -- It does not read the sales, the payments or the counter of identifiers.
  pub rows :
      (s : Db) (sales : List Sale) (payments : List Payment)
      → P s
      → P (record s { sales = sales; payments = payments })

-- A property of the books or of the stock that survives the steps a sale is made of.
pub record Survives (P : Db → Type 0) : Type 0 where
  pub others : Ignores P
  pub add : (c : Change) → Keeps P (add_stock c)
  pub remove : (c : Change) → Keeps P (remove_stock c)
  pub cost : (shop_id v : ℕ) → Keeps P (get_weighted_average_cost shop_id v)

module _ {P : Db → Type 0} (kept : Ignores P) where
  pub get_customer_if-keeps : (shop_id : ℕ) (c : Option ℕ) → Keeps P (get_customer_if shop_id c)
  unfolding get_customer
  get_customer_if-keeps shop_id none = search keeps_rules
  get_customer_if-keeps shop_id (some id) = search keeps_rules

  pub get_shop-keeps : (shop_id : ℕ) → Keeps P (get_shop shop_id)
  unfolding get_shop
  get_shop-keeps shop_id = search keeps_rules

  pub validate_variants-keeps :
      (shop_id : ℕ) (lines : List NormalisedItem) → Keeps P (validate_variants shop_id lines)
  unfolding validate_variants
  validate_variants-keeps shop_id lines = search keeps_rules

  pub allocate_if-keeps : (shop_id : ℕ) (t : Option Text) → Keeps P (allocate_if shop_id t)
  unfolding allocate_invoice_number
  allocate_if-keeps shop_id none = search (keeps_rules, get_shop-keeps)
  allocate_if-keeps shop_id (some t) = search keeps_rules

  pub check_header-keeps : (x : Sale) → Keeps P (check_header x)
  unfolding check_header
  check_header-keeps x = search keeps_rules

  pub insert_sale-keeps : (x : Sale) → Keeps P (insert_sale x)
  unfolding insert_sale
  insert_sale-keeps x = Keeps-modify _ λ s h. kept.rows s (s.sales ++ x ∷ []) s.payments h

  pub add_payments-keeps :
      (shop_id : ℕ) (customer_id : Option ℕ) (sale_id : ℕ) (payments : List NormalisedPayment)
      → Keeps P (add_payments shop_id customer_id sale_id payments)
  unfolding add_payments
  add_payments-keeps shop_id customer_id sale_id [] = search keeps_rules
  add_payments-keeps shop_id customer_id sale_id (p ∷ payments) = Keeps-bind _ _ kept.uuid λ id.
      Keeps-bind _ _ (Keeps-gets _) λ now.
        Keeps-bind _ _ (Keeps-modify _ λ s h. kept.rows s s.sales _ h)
          λ _. add_payments-keeps shop_id customer_id sale_id payments

module _ {P : Db → Type 0} (kept : Survives P) where
  take_line-keeps :
      (shop_id sale_id : ℕ) (line : NormalisedItem) → Keeps P (take_line shop_id sale_id line)
  unfolding take_line
  take_line-keeps shop_id sale_id line =
      Keeps-bind _ _ (kept.cost shop_id line.variant_id) λ average.
        Keeps-bind _ _ kept.others.uuid λ id.
          Keeps-bind _ _ (search keeps_rules) λ _. Keeps-bind _ _ (kept.remove _) λ _. Keeps-pure _

  take_lines-keeps :
      (shop_id sale_id : ℕ) (lines : List NormalisedItem)
      → Keeps P (take_lines shop_id sale_id lines)
  unfolding take_lines
  take_lines-keeps shop_id sale_id [] = search keeps_rules
  take_lines-keeps shop_id sale_id (line ∷ lines) =
      Keeps-bind _ _ (take_line-keeps shop_id sale_id line)
        λ item. Keeps-bind _ _ (take_lines-keeps shop_id sale_id lines) λ items. search Keeps-pure

  write_sale-keeps :
      (r : SaleRequest) (invoice : Option Text) (lines : List NormalisedItem) (discount : ℤ)
      (payments : List NormalisedPayment)
      → Keeps P (write_sale r invoice lines discount payments)
  unfolding write_sale
  write_sale-keeps r invoice lines discount payments =
      allocate_if-keeps kept.others r.shop_id invoice ▹ λ number. kept.others.uuid ▹ λ id.
      Keeps-gets _ ▹ λ now. check_header-keeps kept.others _ ▹ λ _.
      take_lines-keeps r.shop_id id lines ▹ λ items. insert_sale-keeps kept.others _ ▹ λ _.
      add_payments-keeps kept.others r.shop_id r.customer_id id payments ▹ λ _.
      kept.others.sale _ none ▹ λ _. kept.others.cogs _ none ▹ λ _. Keeps-pure _

  pub create_sale-keeps : (r : SaleRequest) → Keeps P (create_sale r)
  unfolding create_sale
  create_sale-keeps r = Keeps-guard _ _ ▹ λ _. Keeps-lift _ ▹ λ invoice.
      get_shop-keeps kept.others r.shop_id ▹ λ _.
      get_customer_if-keeps kept.others r.shop_id r.customer_id ▹ λ _. Keeps-lift _ ▹ λ lines.
      validate_variants-keeps kept.others r.shop_id lines ▹ λ _. Keeps-guard _ _ ▹ λ _.
      Keeps-lift _ ▹ λ payments. Keeps-guard _ _ ▹ λ _. write_sale-keeps r _ _ _ _
