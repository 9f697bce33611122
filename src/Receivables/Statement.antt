-- ===== src/Receivables/Statement.antt =====
-- The customer's statement: `_statement_entries`, `_balance_before` and `get_customer_statement`.
use kapra_os.Prelude.{ℕ, ltb, ◌&&◌, Option, none, some, List, ◌++◌, ℤ, pos}
use kapra_os.Tables.{Db, Sale, Payment, SaleReturn}
use kapra_os.Session.{Exec, pure, gets, lift, ◌>>=◌, ◌>>◌}
use kapra_os.Sales.Create.{get_customer}
use kapra_os.Khata.Entries.{
  EntryRow, EntryReference, rows_where, StatementEntryType, StatementQuery, Statement, in_range,
  validate_statement_arguments, statement_page,
}
use kapra_os.Receivables.Balance.{sale_counts, payment_counts, return_counts, outstanding_when}

abbrev pub sale_row : Sale → EntryRow
sale_row x = record {
  entry_type = StatementEntryType.document;
  created_at = x.created_at;
  entry_id = x.id;
  document_id = some x.id;
  payment_id = none;
  return_id = none;
  invoice_number = x.invoice_number;
  reference = EntryReference.number x.invoice_number;
  payment_method = none;
  debit = x.total;
  credit = pos 0;
}

abbrev pub payment_row : Payment → EntryRow
payment_row p = record {
  entry_type = StatementEntryType.payment;
  created_at = p.created_at;
  entry_id = p.id;
  document_id = p.sale_id;
  payment_id = some p.id;
  return_id = none;
  invoice_number = none;
  reference = EntryReference.text p.reference;
  payment_method = some p.method;
  debit = pos 0;
  credit = p.amount;
}

abbrev pub return_row : SaleReturn → EntryRow
return_row x = record {
  entry_type = StatementEntryType.return;
  created_at = x.created_at;
  entry_id = x.id;
  document_id = some x.sale_id;
  payment_id = none;
  return_id = some x.id;
  invoice_number = none;
  reference = EntryReference.text x.notes;
  payment_method = none;
  debit = pos 0;
  credit = x.ar_amount;
}

unfoldable pub statement_entries : ℕ → ℕ → Option ℕ → Option ℕ → Db → List EntryRow
unfolding rows_where
statement_entries shop_id customer_id start end s =
    rows_where (λ x. sale_counts shop_id customer_id x && in_range start end x.created_at) sale_row
      s.sales
    ++ rows_where
        (λ p. payment_counts shop_id customer_id s.sales p && in_range start end p.created_at)
        payment_row s.payments
    ++ rows_where
        (λ x. return_counts shop_id customer_id s.sales x && in_range start end x.created_at)
        return_row s.sale_returns

abbrev pub balance_before : ℕ → ℕ → Option ℕ → Db → ℤ
balance_before shop_id customer_id none s = pos 0
balance_before shop_id customer_id (some start) s =
    outstanding_when (λ t. ltb t start) shop_id customer_id s

unfoldable pub get_customer_statement : ℕ → ℕ → StatementQuery → Exec Statement
unfolding validate_statement_arguments statement_page statement_entries
get_customer_statement shop_id customer_id q = do
  get_customer shop_id customer_id
  lift (validate_statement_arguments q)
  rows ← gets (statement_entries shop_id customer_id q.start_date q.end_date)
  before ← gets (balance_before shop_id customer_id q.start_date)
  pure (statement_page customer_id q before rows)
