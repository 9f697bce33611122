-- ===== src/Tests/Numbers.antt =====
-- Invoice numbers after a first sale.
use kapra_os.Prelude.{◌≡◌, refl, false, some}
use kapra_os.Session.{ok}
use kapra_os.Sales.InvoiceNumber.{format_invoice_number, parse_invoice_number}
use kapra_os.Sales.Create.{allocate_invoice_number, number_used}
use kapra_os.Sales.Numbering.{next_number, allocate_invoice_number-free, parse-format}
use kapra_os.Tests.Evaluation.{evaluation}
use kapra_os.Tests.Histories.{sold}

parse-format_example : parse_invoice_number (format_invoice_number 1234567) ≡ some 1234567
parse-format_example = parse-format 1234567

-- The sale had the first number, so this one is the second.
second_number : next_number 1 sold ≡ format_invoice_number 2
unfolding evaluation
second_number = refl

allocate_invoice_number-free_example :
    (allocate_invoice_number 1 sold ≡ ok (next_number 1 sold, sold))
    × (number_used 1 (some (next_number 1 sold)) sold.sales ≡ false)
unfolding evaluation
allocate_invoice_number-free_example = allocate_invoice_number-free 1 sold refl
