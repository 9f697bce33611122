-- ===== src/Sales/Header.antt =====
-- The header of a created sale: its totals, its status and the CHECK constraints of `sales`.
use kapra_os.Prelude.{
  ℕ, ◌≡◌, ◌↔◌, true, List, [], ◌∷◌, arith, ℤ, pos, ◌-ℤ◌, ◌≤ℤ◌, inl, inr, +ℤ_parts, -ℤ_parts,
  eq_of_parts,
}
use kapra_os.Tables.{SaleItem, SaleStatus, Text}
use kapra_os.Session.{ok}
use kapra_os.Session.Outcome.{Result-cases}
use kapra_os.Sales.Lines.{
  PaymentInput, NormalisedPayment, normalise_money, normalise_payments, sum_payments,
}
use kapra_os.Sales.Create.{SaleRequest, sale_header, sale_allowed}

-- Normalised payments are positive, so they do not come to a negative amount.
sum_payments_nonneg :
    (payments : List PaymentInput) (normal : List NormalisedPayment)
    → normalise_payments payments ≡ ok normal
    → pos 0 ≤ℤ sum_payments normal
unfolding normalise_payments sum_payments
sum_payments_nonneg [] normal h = ground arith
sum_payments_nonneg (p ∷ payments) normal h = elim (Result-cases (normalise_payments payments)) [
  | inl (rest, e) ↦
      let later = sum_payments_nonneg payments rest e in
      ground (arith, +ℤ_parts (normalise_money p.amount) (sum_payments rest))
  | inr (x, e) ↦ ground arith
]

-- Where the checks of `create_sale` on the discount and the payments pass, the header that it builds
-- meets every CHECK constraint of `sales`.
pub sale_header-allowed :
    (r : SaleRequest) (id : ℕ) (number : Text) (now : ℕ) (subtotal discount : ℤ)
    (items : List SaleItem) (payments : List NormalisedPayment)
    → normalise_payments r.payments ≡ ok payments
    → pos 0 ≤ℤ discount
    → discount ≤ℤ subtotal
    → sum_payments payments ≤ℤ subtotal -ℤ discount
    → sale_allowed (sale_header r id number now subtotal discount (sum_payments payments) items)
      ≡ true
unfolding sale_header
sale_header-allowed r id number now subtotal discount items payments normal a b c =
    let paid = sum_payments_nonneg r.payments payments normal in
    ground (arith, -ℤ_parts subtotal discount)

module _ (r : SaleRequest) (id : ℕ) (number : Text) (now : ℕ) (subtotal discount paid : ℤ)
    (items : List SaleItem) where
  -- A sale is COMPLETED exactly when it is fully paid.
  pub header_completed :
      paid ≤ℤ subtotal -ℤ discount
      → ((sale_header r id number now subtotal discount paid items).status ≡ SaleStatus.completed)
        ↔ (paid ≡ subtotal -ℤ discount)
  unfolding sale_header
  header_completed h =
      (λ e. ground (arith, eq_of_parts paid (subtotal -ℤ discount)), λ e. ground arith)
