-- ===== src/Lib.antt =====
-- A model of the back end of KapraOS, a point of sale and bookkeeping system for fabric shops:
-- the services under backend/app/services that move stock, money and ledger rows.
--
-- Parts and how they interact. A request handler opens a database transaction and calls one service
-- function; the function validates its input, writes rows and may raise, and the handler commits or
-- rolls back. The sales, purchases and expenses services call the inventory service for stock and
-- the accounting service for postings; those two are the only writers of the stock tables and of the ledger.
--
--   Prelude, Prelude/*      shared names, Boolean tests, signed integers
--   Decimal, Decimal/*      Python's decimal.Decimal: exact sums and products, quantize with
--                           ROUND_HALF_UP (Decimal/Rounding: theorems on it), division to 28 significant digits with ROUND_HALF_EVEN
--   Tables, Tables/Rows     backend/app/models: the rows, and the database as a record of tables
--   Session, Session/*      a service function as a function from the database to a result with the
--                           database it leaves, or an exception; rules for what it keeps
--   Inventory, Inventory/*  backend/app/services/inventory.py: Defs has get_variant,
--                           lock_inventory, get_weighted_average_cost, add_stock, remove_stock and
--                           adjust_stock, with the keyword arguments as the records Change and
--                           Adjustment
--   Accounting/Chart        backend/app/services/accounting.py: account codes and
--                           ensure_system_accounts; Accounting/System: theorems on it
--   Accounting/Group        _post_group (post_group), delete_posting, delete_postings_for_reference
--   Accounting/Posts        the post_* functions
--   Accounting/Reads        list_accounts, get_account_balance and get_account_ledger;
--                           Accounting/LedgerClosing, Accounting/TrialBalance: theorems on them
--   Accounting/Books/*      sums over posting groups, the writers of the ledger, the lines of each
--                           document, posting once
--   Sales/Lines             backend/app/services/sales.py: _combine_items, _line_total,
--                           _normalise_payments
--   Sales/InvoiceNumber     the scan and the format of _allocate_invoice_number
--   Sales/Create            create_sale; Sales/Edit: update_sale and delete_sale
--   Sales/LineTotals, Sales/Header, Sales/Created, Sales/Edited, Sales/Stock,
--   Sales/Numbering,
--   Sales/Invariants/*      theorems on these
--   Purchases/Lines         backend/app/services/purchases.py: _combine_items, _line_total
--   Purchases/Create        create_purchase; Purchases/Edit: update_purchase; Purchases/Void:
--                           delete_purchase
--   Purchases/Created, Purchases/Stock, Purchases/Keeps, Purchases/EditKeeps   theorems on these
--   Expenses/Defs           backend/app/services/expenses.py: create_expense, update_expense and
--                           delete_expense; Expenses/Keeps: theorems on these
--   Returns/Lines           backend/app/services/returns.py: the requested lines and the discounts'
--                           shares; Returns/SaleLines, Returns/PurchaseLines: the prepared lines
--   Returns/OfSale          create_sale_return; Returns/OfPurchase: create_purchase_return
--   Returns/Quantities, Returns/Limit, Returns/Stock, Returns/Sent, Returns/Keeps, Documents   theorems on these
--   Khata/Sums, Khata/Entries   what backend/app/services/receivables.py and payables.py share: the
--                           aggregates of a query, the rows of a statement, their order and pages;
--                           Khata/Order, Khata/Owners: lemmas on them
--   Receivables/Balance     receivables.py: _compute_balance, get_customer_balance and
--                           get_total_outstanding; Receivables/Statement: get_customer_statement;
--                           Receivables/Settle: record_customer_payment
--   Receivables/Closing, Receivables/Outstanding, Receivables/Writes, Receivables/Settled,
--   Sales/Rows              theorems on these
--   Payables/*              payables.py, in the same order; Payables/Closing: a theorem on it
--   Payments/Void           backend/app/api/payments.py: void_payment; Payments/Keeps: theorems on the
--                           recording and voiding of payments
--   Openings/Lines          backend/app/services/opening_inventory.py: the normalisation of a batch;
--                           Openings/Post: post_opening_inventory; Openings/Retry, Openings/Keeps:
--                           theorems on these
--   History/*               histories of committed transactions
--   Tests/*                 concrete runs, and each theorem at one of them
--
-- Values. Money is a whole number of cents, a quantity of thousandths and an average cost of
-- ten-thousandths, as the NUMERIC(14, 2), (14, 3) and (14, 4) columns hold them, so quantizing a
-- stored value again is the identity and is not written. Inputs of the services are decimals
-- of any scale; where the code stores one unrounded (adjust_stock), the column rounds it to its
-- scale, a tie away from zero. Products and sums are exact: the columns keep them below the 28 digits of the
-- context. The size limits of the columns, and of text columns other than the invoice numbers, are
-- not modelled. Account codes, identifiers and times are numbers; a UUID's text sorts as its number.
--
-- The database. `uuid4` is the sequence of identifiers that the process draws, and `now` the
-- transaction's time; both are arbitrary. A query without an order returns rows in the order of
-- insertion. The row locks (FOR UPDATE) make concurrent transactions wait and change no value: one
-- transaction is modelled at a time, and a history is a sequence of commits. Of the constraints,
-- the uniqueness of a posting's accounts and of an invoice number and the CHECK constraints of
-- sales, purchases, returns and their items, and the foreign key of an account's shop, are modelled
-- as a refusal (`integrity`); those of the stock and of the ledger amounts are not written into the
-- model. A digit of an invoice number is a decimal digit of Unicode 15.0, as in Python 3.12.
--
-- Bounds and fuel. The search for a free invoice number has as much fuel as there are numbers, and
-- one more; a number is printed with more fuel than it has digits; the digits of a dividend or a
-- divisor are counted up to 60, where two column values multiply to 28 at most.
--
-- Not modelled: the HTTP routes and schemas, authentication, the AI assistant, the cache, the
-- administration and reporting reads, migrations, the customer and supplier summaries, and the
-- preview of an opening batch.
pub mod Prelude
pub mod Decimal
pub mod Tables
pub mod Session
pub mod Accounting
pub mod Inventory
pub mod Khata
pub mod Receivables
pub mod Payables
pub mod Openings
pub mod Payments
pub mod Sales
pub mod Purchases
pub mod Expenses
pub mod Documents
pub mod Returns
pub mod History
pub mod Tests
