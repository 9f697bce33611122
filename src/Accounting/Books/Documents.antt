-- ===== src/Accounting/Books/Documents.antt =====
-- The lines of a sale's posting, and of a customer return's, pass the checks of `_post_group`.
use kapra_os.Prelude.{
  ℕ, String, ◌≡◌, refl, true, ◌&&◌, if◌then◌else◌, Option, List, [], ◌∷◌, arith, ℤ, pos, ◌+ℤ◌, ◌-ℤ◌,
  ◌≤ℤ◌, ◌<ℤ◌, ltb_ℤ, min_ℤ, int_laws, Bool-cases, ltb_ℤ→lt, ltb_ℤ→le, inl, inr, -ℤ_parts,
}
use kapra_os.Session.{ok}
use kapra_os.Accounting.Group.{Line, debit_line, credit_line, check_lines}
use kapra_os.Accounting.Posts.{
  Amounts, allocated, payment_lines, sale_lines, refund_lines, sale_return_lines, ReturnAccounts,
}
use kapra_os.Accounting.Books.Lines.{
  All, Posts, Posts-append, Posts-cast, Posts-debit, Posts-credit, Posts-nil, Posts-debit_if,
  Posts-credit_if, Posts-check,
}

-- No account is allocated a negative amount.
abbrev pub IsNonneg : Amounts → Type 0
IsNonneg amounts = All (λ (e : ℕ × ℤ). pos 0 ≤ℤ e.1) amounts

payment_lines-Posts :
    (text : Option String) (amounts : Amounts)
    → IsNonneg amounts
    → Posts (allocated amounts) (pos 0) (payment_lines text amounts)
unfolding payment_lines allocated
payment_lines-Posts text [] h = Posts-nil _ _ refl refl
payment_lines-Posts text ((id, v) ∷ rest) h = elim (Bool-cases (ltb_ℤ (pos 0) v)) [
  | inl e ↦ rw e (
      Posts-cast refl (omega int_laws) (
        Posts-append v (pos 0) (allocated rest) (pos 0) (debit_line id v text ∷ [])
          (payment_lines text rest) (Posts-debit id v text (ltb_ℤ→lt (pos 0) v e))
          (payment_lines-Posts text rest h.1)))
  | inr e ↦
      let zero_amount = ltb_ℤ→le (pos 0) v e in
      rw e (Posts-cast (omega int_laws) refl (payment_lines-Posts text rest h.1))
]

ltb_sub : (a b : ℤ) → ltb_ℤ (pos 0) (b -ℤ a) ≡ ltb_ℤ a b
ltb_sub a b = ground (arith, -ℤ_parts b a)

-- The lines that `post_sale` builds for a positive total are valid and balance at the total, if the
-- recorded payments are not negative and come to no more than the paid amount, and that to no more
-- than the total. So neither error of `_post_group` is raised.
pub check-sale_lines :
    (cash receivable revenue : ℕ) (total paid : ℤ) (amounts : Amounts) (text : Option String)
    → pos 0 <ℤ total
    → IsNonneg amounts
    → allocated amounts ≤ℤ paid
    → paid ≤ℤ total
    → check_lines (pos 0) (pos 0) (sale_lines cash receivable revenue total paid amounts text)
      ≡ ok (total, total)
unfolding sale_lines
check-sale_lines cash receivable revenue total paid amounts text positive nonneg covered bounded =
    Posts-check total total _ (
      rw (← ltb_sub (allocated amounts) paid) (
        Posts-cast (omega int_laws) (omega int_laws) (
          Posts-append _ _ _ _ _ _ (payment_lines-Posts text amounts nonneg) (
            Posts-append _ _ _ _ _ _
              (Posts-debit_if cash (paid -ℤ allocated amounts) text (omega int_laws))
              (Posts-append _ _ _ _ _ _
                (Posts-debit_if receivable (total -ℤ paid) text (omega int_laws))
                (Posts-credit revenue total text positive))))))

-- What the refund loop hands out, and what it leaves.
record Refunds (cash : ℤ) (r : List Line × ℤ) : Type 0 where
  lines : Posts (pos 0) (cash -ℤ r.1) r.0
  left : pos 0 ≤ℤ r.1

min_bounds :
    (v cash : ℤ)
    → (ltb_ℤ (pos 0) v && ltb_ℤ (pos 0) cash) ≡ true
    → (pos 0 <ℤ min_ℤ v cash) × (min_ℤ v cash ≤ℤ cash)
min_bounds v cash h = ground arith

-- The reversal of the cost, where there is one.
Posts-cost :
    (a : ReturnAccounts) (cogs : ℤ) (text : Option String)
    → pos 0 ≤ℤ cogs
    → Posts cogs cogs (
        if ltb_ℤ (pos 0) cogs
        then debit_line a.inventory cogs text ∷ credit_line a.cogs cogs text ∷ []
        else [])
Posts-cost a cogs text h = elim (Bool-cases (ltb_ℤ (pos 0) cogs)) [
  | inl e ↦
      let positive = ltb_ℤ→lt (pos 0) cogs e in
      rw e (
        Posts-cast (omega int_laws) (omega int_laws) (
          Posts-append cogs (pos 0) (pos 0) cogs (debit_line a.inventory cogs text ∷ [])
            (credit_line a.cogs cogs text ∷ []) (Posts-debit a.inventory cogs text positive)
            (Posts-credit a.cogs cogs text positive)))
  | inr e ↦
      let none_left = ltb_ℤ→le (pos 0) cogs e in
      rw e (Posts-nil cogs cogs (omega int_laws) (omega int_laws))
]

refund_lines-Refunds :
    (text : Option String) (cash : ℤ) (amounts : Amounts)
    → pos 0 ≤ℤ cash
    → Refunds cash (refund_lines text cash amounts)
unfolding refund_lines
refund_lines-Refunds text cash [] h = record {
  lines = Posts-nil _ _ refl (omega int_laws);
  left = h;
}
refund_lines-Refunds text cash ((id, v) ∷ rest) h =
    elim (Bool-cases (ltb_ℤ (pos 0) v && ltb_ℤ (pos 0) cash)) [
      | inl e ↦
          let m : ℤ = min_ℤ v cash in
          let bounds : (pos 0 <ℤ m) × (m ≤ℤ cash) = min_bounds v cash e in
          let later = refund_lines-Refunds text (cash -ℤ m) rest (omega int_laws) in
          rw (e, refund_lines)
            (record {
              lines =
                  Posts-cast (omega int_laws) (omega int_laws)
                    (Posts-append _ _ _ _ _ _ (Posts-credit id m text bounds.0) later.lines);
              left = later.left;
            })
      | inr e ↦ rw (e, refund_lines) (refund_lines-Refunds text cash rest h)
    ]

-- The lines that `post_sale_return` builds are valid and balance, whatever payments were recorded,
-- if the split adds up and no part of it is negative: the debits and the credits both come to the
-- refund plus the cost of the goods.
pub check-sale_return_lines :
    (a : ReturnAccounts) (total_refund ar_amount cash_refund cogs_amount : ℤ) (amounts : Amounts)
    (text : Option String)
    → pos 0 <ℤ total_refund
    → pos 0 ≤ℤ ar_amount
    → pos 0 ≤ℤ cash_refund
    → pos 0 ≤ℤ cogs_amount
    → ar_amount +ℤ cash_refund ≡ total_refund
    → check_lines
        (pos 0)
        (pos 0)
        (sale_return_lines a total_refund ar_amount cash_refund cogs_amount amounts text)
      ≡ ok (total_refund +ℤ cogs_amount, total_refund +ℤ cogs_amount)
unfolding sale_return_lines
check-sale_return_lines a refund ar cash cogs amounts text positive p q r split =
    let refunds = refund_lines-Refunds text cash amounts q in
    let left : ℤ = (refund_lines text cash amounts).1 in
    Posts-check _ _ _ (
      Posts-cast (omega int_laws) (rw (← split) (omega int_laws)) (
        Posts-append refund (pos 0) _ _ (debit_line a.revenue refund text ∷ []) _
          (Posts-debit a.revenue refund text positive)
          (Posts-append _ _ _ _ _ _ (Posts-credit_if a.receivable ar text p) (
            Posts-append _ _ _ _ _ _ refunds.lines (
              Posts-append _ _ _ _ _ _ (Posts-credit_if a.cash left text refunds.left)
                (Posts-cost a cogs text r))))))
