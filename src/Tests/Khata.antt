-- ===== src/Tests/Khata.antt =====
-- A customer's balance, statement and payment, and the theorems on them at one shop.
use kapra_os.Prelude.{◌≡◌, refl, true, some, none, [], ◌∷◌, pos, pos_part, ◌-ℤ◌, ◌≤ℤ◌, ◌<ℤ◌, arith}
use kapra_os.Decimal.{cents}
use kapra_os.Tables.{Db, Purchase, Sale, SaleStatus, Payment, PaymentMethod}
use kapra_os.Sales.Rows.{IsKeyed}
use kapra_os.Khata.Entries.{Statement, StatementQuery, take_if, drop}
use kapra_os.Khata.Owners.{sum_over}
use kapra_os.Receivables.Balance.{compute_balance, get_total_outstanding}
use kapra_os.Receivables.Statement.{get_customer_statement}
use kapra_os.Receivables.Closing.{get_customer_statement-pages, get_customer_statement-closing}
use kapra_os.Receivables.Outstanding.{HasCustomers, customer_ids, get_total_outstanding-sum}
use kapra_os.Receivables.Settle.{PaymentRequest, record_customer_payment}
use kapra_os.Receivables.Settled.{record_customer_payment-settles}
use kapra_os.Payables.Balance as Payables
use kapra_os.Payables.Statement.{get_supplier_statement}
use kapra_os.Payables.Closing.{get_supplier_statement-closing}
use kapra_os.Tests.Evaluation.{evaluation}
use kapra_os.Tests.Shop.{shop, state_of, value_of, is_ok, ran}

-- 18.00, of which 15.00 have been paid.
abbrev open_sale : Sale
open_sale = record {
  id = 50;
  shop_id = 1;
  customer_id = some 7;
  created_by_user_id = none;
  invoice_number = none;
  subtotal = pos 1900;
  discount = pos 100;
  total = pos 1800;
  paid_amount = pos 1500;
  status = SaleStatus.partial;
  created_at = 3;
  items = [];
}

abbrev till_payment : Payment
till_payment = record {
  id = 51;
  shop_id = 1;
  customer_id = some 7;
  supplier_id = none;
  sale_id = some 50;
  purchase_id = none;
  amount = pos 1500;
  method = PaymentMethod.cash;
  reference = none;
  created_at = 3;
}

abbrev book : Db
book = record shop { sales = open_sale ∷ []; payments = till_payment ∷ [] }

-- 2.00 of the 3.00 that are due.
abbrev settlement : PaymentRequest
settlement = record {
  shop_id = 1;
  party_id = 7;
  amount = cents (pos 200);
  method = PaymentMethod.cash;
  document_id = some 50;
  reference = none;
}

abbrev settled : Db
settled = state_of (record_customer_payment settlement book) book

abbrev paid : Payment
paid = value_of (record_customer_payment settlement book) till_payment

settled_ok : is_ok (record_customer_payment settlement book) ≡ true
unfolding evaluation
settled_ok = refl

book-IsKeyed : IsKeyed book.sales
book-IsKeyed = (refl, tt)

record_customer_payment-settles_example :
    (pos 0 <ℤ paid.amount)
    × (paid.amount ≤ℤ (compute_balance 1 7 book).outstanding_balance)
    × ((compute_balance 1 7 settled).outstanding_balance
        ≡ (compute_balance 1 7 book).outstanding_balance -ℤ paid.amount)
record_customer_payment-settles_example =
    record_customer_payment-settles settlement book settled paid book-IsKeyed
      (ran (record_customer_payment settlement book) till_payment book settled_ok)

-- The second page of one row, from day 2 on.
abbrev second_page : StatementQuery
second_page = record { start_date = some 2; end_date = none; limit = some (pos 1); offset = pos 1 }

abbrev whole : StatementQuery
whole = record second_page { limit = none; offset = pos 0 }

abbrev nothing : Statement
nothing = record {
  party_id = 0;
  opening_balance = pos 0;
  closing_balance = pos 0;
  total_entries = 0;
  entries = [];
}

abbrev shown : Statement
shown = value_of (get_customer_statement 1 7 second_page book) nothing

abbrev shown_whole : Statement
shown_whole = value_of (get_customer_statement 1 7 whole book) nothing

shown_ok : is_ok (get_customer_statement 1 7 second_page book) ≡ true
unfolding evaluation
shown_ok = refl

whole_ok : is_ok (get_customer_statement 1 7 whole book) ≡ true
unfolding evaluation
whole_ok = refl

two_rows : shown_whole.total_entries ≡ 2
unfolding evaluation
two_rows = refl

get_customer_statement-pages_example :
    (shown.entries
      ≡ take_if second_page.limit (drop (pos_part second_page.offset) shown_whole.entries))
    × (shown.total_entries ≡ shown_whole.total_entries)
get_customer_statement-pages_example =
    get_customer_statement-pages book (state_of (get_customer_statement 1 7 second_page book) book)
      (state_of (get_customer_statement 1 7 whole book) book) 1 7 second_page shown shown_whole
      (ran (get_customer_statement 1 7 second_page book) nothing book shown_ok)
      (ran (get_customer_statement 1 7 whole book) nothing book whole_ok)

get_customer_statement-closing_example :
    shown_whole.closing_balance ≡ (compute_balance 1 7 book).outstanding_balance
get_customer_statement-closing_example =
    get_customer_statement-closing book (state_of (get_customer_statement 1 7 whole book) book) 1 7
      whole shown_whole refl refl
      (ran (get_customer_statement 1 7 whole book) nothing book whole_ok)

book-HasCustomers : HasCustomers 1 book
unfolding evaluation
book-HasCustomers = record {
  of_sales = λ k h. ground arith;
  of_payments = λ k h. ground arith;
  of_returns = λ k h. ground arith;
}

get_total_outstanding-sum_example :
    get_total_outstanding 1 book
    ≡ sum_over (customer_ids 1 book.customers) (λ c. (compute_balance 1 c book).outstanding_balance)
get_total_outstanding-sum_example = get_total_outstanding-sum 1 book book-HasCustomers

-- A purchase of 20.00 from the supplier.
abbrev bought : Purchase
bought = record {
  id = 60;
  shop_id = 1;
  supplier_id = 8;
  invoice_number = none;
  subtotal = pos 2000;
  discount = pos 0;
  total = pos 2000;
  paid_amount = pos 0;
  created_at = 1;
  items = [];
}

abbrev supplied : Db
supplied = record book { purchases = bought ∷ [] }

abbrev supplier_page : Statement
supplier_page = value_of (get_supplier_statement 1 8 whole supplied) nothing

supplier_ok : is_ok (get_supplier_statement 1 8 whole supplied) ≡ true
unfolding evaluation
supplier_ok = refl

get_supplier_statement-closing_example :
    supplier_page.closing_balance ≡ (Payables.compute_balance 1 8 supplied).outstanding_balance
get_supplier_statement-closing_example =
    get_supplier_statement-closing supplied
      (state_of (get_supplier_statement 1 8 whole supplied) supplied) 1 8 whole supplier_page refl
      refl (ran (get_supplier_statement 1 8 whole supplied) nothing supplied supplier_ok)
