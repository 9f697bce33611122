-- ===== src/Tests/Evaluation.antt =====
-- One name whose unfolding opens every function of the services, for tests by evaluation.
use kapra_os.Prelude.{◌+ℤ◌, ◌-ℤ◌, ◌*ℤ◌}
use kapra_os.Decimal.{quantize, mul, sub, add}
use kapra_os.Decimal.Division.{divide, mul_rounded}
use kapra_os.Session.{◌>>=◌, new_uuid}
use kapra_os.Inventory.{
  get_variant, find_owned, lock_inventory, find_inventory, put_inventory, with_receipt_cost,
  apply_receipt_cost, receipt_average, save_inventory, add_movement, add_stock, remove_stock,
  adjust_stock, get_weighted_average_cost,
}
use kapra_os.Accounting.Chart.{
  ensure_account, ensure_accounts, ensure_system_accounts, account, payment_account_code,
  expense_account_code,
}
use kapra_os.Accounting.Group.{
  check_lines, new_entries, is_unique, add_entries, post_group, delete_entries, delete_posting,
  delete_postings_for_reference,
}
use kapra_os.Accounting.Posts.{
  post_opening_inventory, post_customer_payment, post_supplier_payment, post_purchase_return,
  by_account, allocated, payment_lines, sale_lines, post_sale, cost_of_items, is_qualifying,
  post_cogs, refund_lines, sale_return_lines, post_sale_return, post_transfer, post_purchase,
  post_expense,
}
use kapra_os.Sales.InvoiceNumber.{
  strip, format_invoice_number, parse_invoice_number, max_sequence, first_free,
}
use kapra_os.Sales.Lines.{
  normalise_quantity, normalise_money, gross, line_total, normalise_item, merge_item, combine_items,
  sum_totals, normalise_payments, sum_payments,
}
use kapra_os.Sales.Create.{
  get_shop, get_customer, validate_variants, normalise_invoice, allocate_invoice_number, take_line,
  take_lines, check_header, insert_sale, add_payments, write_sale, create_sale,
}
use kapra_os.Sales.Edit.{
  get_sale_for_update, assert_sale_has_no_returns, new_number, push_delta, push_deltas,
  snapshot_line, snapshot_lines, replace_items, save_sale, repost_sale, update_sale, put_back,
  delete_payment_postings, delete_found, delete_sale,
}
use kapra_os.Purchases.Lines as PurchaseLines
use kapra_os.Purchases.Create as PurchaseCreate
use kapra_os.Purchases.Void as PurchaseVoid
use kapra_os.Purchases.Edit as PurchaseEdit
use kapra_os.Returns.Lines as ReturnLines
use kapra_os.Returns.SaleLines as ReturnSaleLines
use kapra_os.Returns.OfSale as ReturnOfSale
use kapra_os.Returns.PurchaseLines as ReturnPurchaseLines
use kapra_os.Returns.OfPurchase as ReturnOfPurchase
use kapra_os.Receivables.Balance as ReceivableBalance
use kapra_os.Receivables.Statement as ReceivableStatement
use kapra_os.Receivables.Settle as ReceivableSettle
use kapra_os.Payables.Balance as PayableBalance
use kapra_os.Payables.Statement as PayableStatement
use kapra_os.Payables.Settle as PayableSettle
use kapra_os.Payments.Void as PaymentVoid
use kapra_os.Khata.Sums as KhataSums
use kapra_os.Openings.Lines as OpeningLines
use kapra_os.Openings.Post as OpeningPost
use kapra_os.Accounting.Reads as AccountReads
use kapra_os.Accounting.TrialBalance as AccountTotals
use kapra_os.Khata.Entries as KhataEntries

unfoldable pub evaluation : Unit {0}
unfolding ◌+ℤ◌ ◌-ℤ◌ ◌*ℤ◌ quantize mul sub add divide mul_rounded ◌>>=◌ new_uuid get_variant
    find_owned lock_inventory find_inventory put_inventory with_receipt_cost apply_receipt_cost
    receipt_average save_inventory add_movement add_stock remove_stock adjust_stock
    get_weighted_average_cost ensure_account ensure_accounts ensure_system_accounts account
    payment_account_code expense_account_code check_lines new_entries is_unique add_entries
    post_group delete_entries delete_posting delete_postings_for_reference by_account allocated
    payment_lines sale_lines post_sale cost_of_items is_qualifying post_cogs refund_lines
    sale_return_lines post_sale_return post_transfer post_purchase post_expense
    post_customer_payment post_supplier_payment post_purchase_return strip format_invoice_number
    parse_invoice_number max_sequence first_free normalise_quantity normalise_money gross line_total
    normalise_item merge_item combine_items sum_totals normalise_payments sum_payments get_shop
    get_customer validate_variants normalise_invoice allocate_invoice_number take_line take_lines
    check_header insert_sale add_payments write_sale create_sale get_sale_for_update
    assert_sale_has_no_returns new_number push_delta push_deltas snapshot_line snapshot_lines
    replace_items save_sale repost_sale update_sale put_back delete_payment_postings delete_found
    delete_sale PurchaseLines.normalise_quantity PurchaseLines.normalise_cost
    PurchaseLines.line_total PurchaseLines.normalise_item PurchaseLines.merge_item
    PurchaseLines.combine_from PurchaseLines.combine_items PurchaseLines.sum_totals
    PurchaseCreate.get_supplier PurchaseCreate.validate_variants PurchaseCreate.all_owned
    PurchaseCreate.check_purchase PurchaseCreate.receive_line PurchaseCreate.receive_lines
    PurchaseCreate.purchase_header PurchaseCreate.write_purchase PurchaseCreate.create_purchase
    PurchaseVoid.get_purchase_for_update PurchaseVoid.assert_purchase_has_no_returns
    PurchaseVoid.pull_out PurchaseVoid.delete_supplier_postings PurchaseVoid.void_purchase
    PurchaseVoid.delete_purchase ReturnLines.normalise_quantity ReturnLines.combine_from
    ReturnLines.combine_lines ReturnLines.proportional_share ReturnLines.gross_of
    ReturnLines.header_share ReturnSaleLines.returned_quantity ReturnSaleLines.previous_ar_total
    ReturnSaleLines.price_line ReturnSaleLines.prepare_line ReturnSaleLines.prepare_lines
    ReturnSaleLines.refund_total ReturnSaleLines.cogs_total ReturnSaleLines.remaining_due
    ReturnOfSale.get_sale_for_return ReturnOfSale.put_line ReturnOfSale.put_lines
    ReturnOfSale.return_header ReturnOfSale.write_sale_return ReturnOfSale.return_goods
    ReturnOfSale.create_sale_return ReturnPurchaseLines.returned_quantity
    ReturnPurchaseLines.price_line ReturnPurchaseLines.prepare_line
    ReturnPurchaseLines.prepare_lines ReturnPurchaseLines.sum_totals ReturnOfPurchase.send_line
    ReturnOfPurchase.send_lines ReturnOfPurchase.write_purchase_return
    ReturnOfPurchase.create_purchase_return ReceivableBalance.outstanding_when
    ReceivableBalance.compute_balance ReceivableBalance.get_customer_balance
    ReceivableBalance.get_total_outstanding ReceivableStatement.statement_entries
    ReceivableStatement.get_customer_statement ReceivableSettle.get_settleable_sale
    ReceivableSettle.settleable_if ReceivableSettle.allocate ReceivableSettle.write_customer_payment
    ReceivableSettle.record_customer_payment PayableBalance.outstanding_when
    PayableBalance.compute_balance PayableBalance.get_supplier_balance
    PayableBalance.get_total_outstanding PayableStatement.statement_entries
    PayableStatement.get_supplier_statement PayableSettle.get_settleable_purchase
    PayableSettle.settleable_if PayableSettle.allocate PayableSettle.write_supplier_payment
    PayableSettle.record_supplier_payment PaymentVoid.roll_back_sale PaymentVoid.roll_back_purchase
    PaymentVoid.void_payment KhataSums.sum_where KhataSums.count_where KhataSums.latest_where
    KhataEntries.insert_row KhataEntries.order_rows KhataEntries.rows_where KhataEntries.net_of
    KhataEntries.run_entries KhataEntries.closing_of KhataEntries.validate_statement_arguments
    KhataEntries.statement_page PurchaseEdit.save_purchase AccountReads.list_accounts
    AccountReads.load_account AccountReads.balance_of AccountReads.get_account_balance
    AccountReads.insert_entry AccountReads.entries_where AccountReads.raw_net
    AccountReads.ledger_lines AccountReads.raw_closing AccountReads.raw_before
    AccountReads.ledger_page AccountReads.get_account_ledger AccountTotals.total_over
    OpeningLines.normalise_quantity OpeningLines.normalise_cost OpeningLines.normalise_cost_status
    OpeningLines.normalise_line OpeningLines.normalise_lines OpeningLines.normalise_idempotency_key
    OpeningLines.normalise_notes OpeningLines.sum_values OpeningPost.open_lines
    OpeningPost.write_batch OpeningPost.post_opening_inventory post_opening_inventory
evaluation = tt
