-- ===== src/Payables/Statement.antt =====
-- The supplier's statement: `_statement_entries`, `_balance_before` and `get_supplier_statement`.
use kapra_os.Prelude.{ℕ, ltb, ◌&&◌, Option, none, some, List, ◌++◌, ℤ, pos}
use kapra_os.Tables.{Db, Purchase, Payment, PurchaseReturn}
use kapra_os.Session.{Exec, pure, gets, lift, ◌>>=◌, ◌>>◌}
use kapra_os.Purchases.Create.{get_supplier}
use kapra_os.Khata.Entries.{
  EntryRow, EntryReference, rows_where, StatementEntryType, StatementQuery, Statement, in_range,
  validate_statement_arguments, statement_page,
}
use kapra_os.Payables.Balance.{purchase_counts, payment_counts, return_counts, outstanding_when}

abbrev pub purchase_row : Purchase → EntryRow
purchase_row x = record {
  entry_type = StatementEntryType.document;
  created_at = x.created_at;
  entry_id = x.id;
  document_id = some x.id;
  payment_id = none;
  return_id = none;
  invoice_number = x.invoice_number;
  reference = EntryReference.number x.invoice_number;
  payment_method = none;
  debit = x.total;
  credit = pos 0;
}

abbrev pub payment_row : Payment → EntryRow
payment_row p = record {
  entry_type = StatementEntryType.payment;
  created_at = p.created_at;
  entry_id = p.id;
  document_id = p.purchase_id;
  payment_id = some p.id;
  return_id = none;
  invoice_number = none;
  reference = EntryReference.text p.reference;
  payment_method = some p.method;
  debit = pos 0;
  credit = p.amount;
}

abbrev pub return_row : PurchaseReturn → EntryRow
return_row x = record {
  entry_type = StatementEntryType.return;
  created_at = x.created_at;
  entry_id = x.id;
  document_id = some x.purchase_id;
  payment_id = none;
  return_id = some x.id;
  invoice_number = none;
  reference = EntryReference.text x.notes;
  payment_method = none;
  debit = pos 0;
  credit = x.total_amount;
}

unfoldable pub statement_entries : ℕ → ℕ → Option ℕ → Option ℕ → Db → List EntryRow
unfolding rows_where
statement_entries shop_id supplier_id start end s =
    rows_where (λ x. purchase_counts shop_id supplier_id x && in_range start end x.created_at)
      purchase_row s.purchases
    ++ rows_where
        (λ p. payment_counts shop_id supplier_id s.purchases p && in_range start end p.created_at)
        payment_row s.payments
    ++ rows_where (λ x. return_counts shop_id supplier_id x && in_range start end x.created_at)
        return_row s.purchase_returns

abbrev pub balance_before : ℕ → ℕ → Option ℕ → Db → ℤ
balance_before shop_id supplier_id none s = pos 0
balance_before shop_id supplier_id (some start) s =
    outstanding_when (λ t. ltb t start) shop_id supplier_id s

unfoldable pub get_supplier_statement : ℕ → ℕ → StatementQuery → Exec Statement
unfolding validate_statement_arguments statement_page statement_entries
get_supplier_statement shop_id supplier_id q = do
  get_supplier shop_id supplier_id
  lift (validate_statement_arguments q)
  rows ← gets (statement_entries shop_id supplier_id q.start_date q.end_date)
  before ← gets (balance_before shop_id supplier_id q.start_date)
  pure (statement_page supplier_id q before rows)
