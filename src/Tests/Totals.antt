-- ===== src/Tests/Totals.antt =====
-- Totals of lines, with and without the half cent.
use kapra_os.Prelude.{true, none, List, [], ◌∷◌, refl, ◌≡◌, pos, negsuc, arith, ◌-ℤ◌}
use kapra_os.Tables.{PaymentMethod}
use kapra_os.Session.{ok}
use kapra_os.Sales.Create.{sale_header, sale_allowed}
use kapra_os.Sales.Header.{sale_header-allowed}
use kapra_os.Sales.Created.{IsTotalled, create_sale-IsTotalled}
use kapra_os.Tests.Shop.{request}
use kapra_os.Tests.Histories.{bought, stocked, sold, sold-IsCreated}
use kapra_os.Sales.Lines.{NormalisedPayment, normalise_payments, sum_payments, gross, line_total}
use kapra_os.Tests.Evaluation.{evaluation}
use kapra_os.Sales.LineTotals.{line_total-eq, line_total_tie}

-- 2.501 metres at 3.33, less 1.00.
line_total-eq_example :
    line_total (pos 2501) (pos 333) (pos 100) ≡ gross (pos 2501) (pos 333) -ℤ pos 100
unfolding evaluation
line_total-eq_example = line_total-eq 2501 333 100 (ground arith) (ground arith)

-- 0.500 metres at 0.01, less 0.01.
line_total_tie_example :
    (gross (pos 500) (pos 1) ≡ pos 1) × (line_total (pos 500) (pos 1) (pos 1) ≡ negsuc 0)
line_total_tie_example = line_total_tie 500 1 1 (ground arith)

abbrev payments : List NormalisedPayment
payments =
    record { amount = pos 1200; method = PaymentMethod.cash; reference = none }
    ∷ record { amount = pos 300; method = PaymentMethod.card; reference = none }
    ∷ []

payments-IsNormal : normalise_payments request.payments ≡ ok payments
unfolding evaluation
payments-IsNormal = refl

sale_header-allowed_example :
    sale_allowed
      (sale_header request 9 (b'A' ∷ []) 0 (pos 1900) (pos 100) (sum_payments payments) [])
    ≡ true
unfolding evaluation
sale_header-allowed_example =
    sale_header-allowed request 9 (b'A' ∷ []) 0 (pos 1900) (pos 100) [] payments payments-IsNormal
      (ground arith) (ground arith) (ground arith)

create_sale-IsTotalled_example : IsTotalled bought
create_sale-IsTotalled_example = create_sale-IsTotalled request stocked sold bought sold-IsCreated
