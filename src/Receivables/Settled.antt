-- ===== src/Receivables/Settled.antt =====
-- What a recorded payment does to the customer's balance and to the sale that it names.
use kapra_os.Prelude.{
  ℕ, ◌==◌, true, ◌≡◌, refl, sym, ap, ◌∙◌, ◌&&◌, Option, none, some, List, [], ◌∷◌, ◌++◌, ℤ, pos,
  ◌+ℤ◌, ◌-ℤ◌, ◌≤ℤ◌, ◌<ℤ◌, leb_ℤ, ltb_ℤ→lt, leb_ℤ→le, int_laws, Bool-cases, inl, inr, ==_refl,
}
use kapra_os.Decimal.{quantize, money_scale}
use kapra_os.Tables.{Db, Sale, Payment, SaleReturn}
use kapra_os.Session.{ok}
use kapra_os.Session.Keeps.{
  Triple, Triple-frame, After-ok, Keeps-gets, Keeps-or_raise, Keeps-guard, Triple-guard-bind, ◌▹◌,
  ◌▹▹◌,
}
use kapra_os.Session.Values.{Triple-given}
use kapra_os.Accounting.Group.{any_row}
use kapra_os.Accounting.Posts.{is_qualifying}
use kapra_os.Sales.Create.{get_customer, payment_status}
use kapra_os.Sales.Edit.{put_sale}
use kapra_os.Sales.Rows.{
  IsKeyed, Exchanged, found_id, put_sale-Exchanged, Exchanged-sum, Exchanged-any, Exchanged-has,
}
use kapra_os.Khata.Sums.{sum_where-same, sum_where-append}
use kapra_os.Receivables.Balance.{
  sale_counts, payment_counts, return_counts, names_counted, compute_balance,
}
use kapra_os.Receivables.Settle.{
  PaymentRequest, paid_sale, customer_payment, write_customer_payment, record_customer_payment,
}
use kapra_os.Receivables.Writes.{
  Holds, owed, IsSettleable, IsTarget, allocated, settleable_if-found, balance-owed,
  write_customer_payment-Holds,
}

status_qualifies : (paid total : ℤ) → is_qualifying (payment_status paid total) ≡ true
unfolding is_qualifying
status_qualifies paid total = elim (Bool-cases (leb_ℤ total paid)) [
  | inl e ↦ rw e refl
  | inr e ↦ rw e refl
]

module _ (shop_id customer_id id : ℕ) (sales : List Sale) (x : Sale) (amount : ℤ)
    (keyed : IsKeyed sales) (target : IsSettleable shop_id customer_id id sales x) where
  exchanged : Exchanged x (paid_sale x amount) sales (put_sale (paid_sale x amount) sales)
  exchanged =
      put_sale-Exchanged shop_id id x (paid_sale x amount) sales keyed target.found
        (found_id shop_id id sales x target.found).0

  -- The sale counts towards the balance before and after.
  counts_same :
      sale_counts shop_id customer_id (paid_sale x amount) ≡ sale_counts shop_id customer_id x
  counts_same = rw (status_qualifies (x.paid_amount +ℤ amount) x.total, target.qualifies) refl

  any_same :
      (k : ℕ)
      → any_row
          (λ z. z.id == k && sale_counts shop_id customer_id z)
          (put_sale (paid_sale x amount) sales)
        ≡ any_row (λ z. z.id == k && sale_counts shop_id customer_id z) sales
  any_same k =
      Exchanged-any (λ z. z.id == k && sale_counts shop_id customer_id z) exchanged
        (ap (λ b. x.id == k && b) counts_same)

  named_same :
      (document : Option ℕ)
      → names_counted shop_id customer_id (put_sale (paid_sale x amount) sales) document
        ≡ names_counted shop_id customer_id sales document
  named_same none = refl
  named_same (some k) = any_same k

  owed-paid_sale :
      (payments : List Payment) (returns : List SaleReturn)
      → owed shop_id customer_id (put_sale (paid_sale x amount) sales) payments returns
        ≡ owed shop_id customer_id sales payments returns
  unfolding owed
  owed-paid_sale payments returns =
      rw
        (
          Exchanged-sum (sale_counts shop_id customer_id) (λ z. z.total) exchanged counts_same refl,
          sum_where-same (payment_counts shop_id customer_id (put_sale (paid_sale x amount) sales))
              (payment_counts shop_id customer_id sales) (λ p. p.amount) payments
              (λ p. rw (named_same p.sale_id) refl),
          sum_where-same (return_counts shop_id customer_id (put_sale (paid_sale x amount) sales))
              (return_counts shop_id customer_id sales) (λ z. z.ar_amount) returns
              (λ z. rw (any_same z.sale_id) refl),
        )
        refl

  -- A payment that names the sale counts.
  target_counts : names_counted shop_id customer_id sales (some id) ≡ true
  target_counts =
      let ids = found_id shop_id id sales x target.found in
      Exchanged-has (λ z. z.id == id && sale_counts shop_id customer_id z) exchanged
        (rw (ids.0, ids.1, ==_refl id, ==_refl shop_id, target.customer, target.qualifies) refl)

module _ (shop_id customer_id : ℕ) (sales : List Sale) where
  owed-allocated :
      (payments : List Payment) (returns : List SaleReturn) (amount : ℤ) (document : Option ℕ)
      (o : Option Sale)
      → IsKeyed sales
      → IsTarget shop_id customer_id sales document o
      → owed shop_id customer_id (allocated o amount sales) payments returns
        ≡ owed shop_id customer_id sales payments returns
  owed-allocated payments returns amount none o keyed target = rw target refl
  owed-allocated payments returns amount (some id) o keyed (x, same, target) =
      rw same (owed-paid_sale shop_id customer_id id sales x amount keyed target payments returns)

  document_counts :
      (document : Option ℕ) (o : Option Sale)
      → IsKeyed sales
      → IsTarget shop_id customer_id sales document o
      → names_counted shop_id customer_id sales document ≡ true
  document_counts none o keyed target = refl
  document_counts (some id) o keyed (x, same, target) =
      target_counts shop_id customer_id id sales x (pos 0) keyed target

  owed-append :
      (payments : List Payment) (returns : List SaleReturn) (p : Payment)
      → payment_counts shop_id customer_id sales p ≡ true
      → owed shop_id customer_id sales (payments ++ p ∷ []) returns
        ≡ owed shop_id customer_id sales payments returns -ℤ p.amount
  unfolding owed
  owed-append payments returns p counts =
      rw
        (
          sum_where-append (payment_counts shop_id customer_id sales) (λ x. x.amount) payments p,
          counts,
        )
        (omega int_laws)

-- The balance after the payment is written.
owed-payment :
    (r : PaymentRequest) (sales : List Sale) (payments : List Payment) (returns : List SaleReturn)
    (o : Option Sale) (id now : ℕ) (amount : ℤ)
    → IsKeyed sales
    → IsTarget r.shop_id r.party_id sales r.document_id o
    → owed r.shop_id r.party_id
        (allocated o amount sales)
        (payments ++ customer_payment r id now amount ∷ [])
        returns
      ≡ owed r.shop_id r.party_id sales payments returns -ℤ amount
owed-payment r sales payments returns o id now amount keyed target =
    owed-allocated r.shop_id r.party_id sales _ returns amount r.document_id o keyed target
    ∙ owed-append r.shop_id r.party_id sales payments returns (customer_payment r id now amount) (
        rw
          (
            ==_refl r.shop_id,
            ==_refl r.party_id,
            document_counts r.shop_id r.party_id sales r.document_id o keyed target,
          )
          refl)

-- What holds of a payment and the tables it leaves.
record Settles (r : PaymentRequest) (sales : List Sale) (payments : List Payment)
    (returns : List SaleReturn) (p : Payment) (u : Db) : Type 0 where
  positive : pos 0 <ℤ p.amount
  within : p.amount ≤ℤ owed r.shop_id r.party_id sales payments returns
  lowered :
      (compute_balance r.shop_id r.party_id u).outstanding_balance
      ≡ owed r.shop_id r.party_id sales payments returns -ℤ p.amount

owed-compute :
    (shop_id id : ℕ) (u : Db)
    → (compute_balance shop_id id u).outstanding_balance
      ≡ owed shop_id id u.sales u.payments u.sale_returns
unfolding compute_balance owed
owed-compute shop_id id u = refl

write-Settles :
    (r : PaymentRequest) (sales : List Sale) (payments : List Payment) (returns : List SaleReturn)
    (o : Option Sale) (amount : ℤ)
    → IsKeyed sales
    → IsTarget r.shop_id r.party_id sales r.document_id o
    → pos 0 <ℤ amount
    → amount ≤ℤ owed r.shop_id r.party_id sales payments returns
    → Triple
        (Holds sales payments returns)
        (write_customer_payment r o amount)
        (Settles r sales payments returns)
write-Settles r sales payments returns o amount keyed target positive within =
    Triple-frame
      (write_customer_payment-Holds r.shop_id r.party_id sales payments returns r o amount)
      (λ s h. h)
      λ s h p u q.
        let amount_is : p.amount ≡ amount = ap (λ (x : Payment). x.amount) q.fact.2 in
        record {
          positive = rw amount_is positive;
          within = rw amount_is within;
          lowered =
              owed-compute r.shop_id r.party_id u
              ∙ rw (q.base.sales_are, q.base.payments_are, q.base.returns_are)
                  (ap
                      (λ y.
                        owed r.shop_id r.party_id (allocated o amount sales) (payments ++ y ∷ [])
                          returns)
                      q.fact.2
                    ∙ owed-payment r sales payments returns o q.fact.0 q.fact.1 amount keyed target
                    ∙ ap (λ n. owed r.shop_id r.party_id sales payments returns -ℤ n)
                        (sym amount_is));
        }

record_customer_payment-Settles :
    (r : PaymentRequest) (sales : List Sale) (payments : List Payment) (returns : List SaleReturn)
    → IsKeyed sales
    → Triple
        (Holds sales payments returns)
        (record_customer_payment r)
        (Settles r sales payments returns)
unfolding record_customer_payment get_customer
record_customer_payment-Settles r sales payments returns keyed =
    let amount = quantize money_scale r.amount in
    (Keeps-gets _ ▹ λ found. Keeps-or_raise _ _) ▹▹ λ _. Triple-guard-bind _ _ _ λ positive.
      settleable_if-found r.shop_id r.party_id sales payments returns r.document_id ▹▹ λ o.
      Triple-given λ target. balance-owed r.shop_id r.party_id sales payments returns ▹▹ λ b.
      Triple-given λ same. Triple-guard-bind _ _ _ λ within. Keeps-guard _ _ ▹▹ λ _.
      write-Settles r sales payments returns o amount keyed target
        (ltb_ℤ→lt (pos 0) amount positive) (leb_ℤ→le amount _ (rw same at within))

-- A recorded payment is positive and no more than the customer's outstanding balance, and lowers
-- that balance by its amount.
pub record_customer_payment-settles :
    (r : PaymentRequest) (s t : Db) (p : Payment)
    → IsKeyed s.sales
    → record_customer_payment r s ≡ ok (p, t)
    → (pos 0 <ℤ p.amount)
      × (p.amount ≤ℤ (compute_balance r.shop_id r.party_id s).outstanding_balance)
      × ((compute_balance r.shop_id r.party_id t).outstanding_balance
          ≡ (compute_balance r.shop_id r.party_id s).outstanding_balance -ℤ p.amount)
record_customer_payment-settles r s t p keyed e =
    let after = After-ok _ e (
      (record_customer_payment-Settles r s.sales s.payments s.sale_returns keyed).at s
        record { sales_are = refl; payments_are = refl; returns_are = refl }) in
    rw (owed-compute r.shop_id r.party_id s) (after.positive, after.within, after.lowered)
