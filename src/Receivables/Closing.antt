-- ===== src/Receivables/Closing.antt =====
-- The statement's balances agree with `_compute_balance`, and its pages with the whole statement.
use kapra_os.Prelude.{ℕ, ◌≡◌, refl, sym, ap, ◌∙◌, Option, none, some, pos, pos_part, ◌+ℤ◌, int_laws}
use kapra_os.Tables.{Db}
use kapra_os.Session.{ok, pure}
use kapra_os.Session.Keeps.{Triple, After-ok, Keeps-gets, Keeps-or_raise, Keeps-lift, ◌▹◌, ◌▹▹◌}
use kapra_os.Session.Values.{gets-same, Triple-given}
use kapra_os.Sales.Create.{get_customer}
use kapra_os.Khata.Entries.{
  StatementQuery, Statement, in_range, rows_where, drop, take_if, net_of, statement_page,
}
use kapra_os.Khata.Order.{
  net_of-three, statement_page-entries, statement_page-closing, sum_where-undated, sum_where-dated,
  rows_where-debits, rows_where-credits,
}
use kapra_os.Receivables.Balance.{
  sale_counts, payment_counts, return_counts, compute_balance, outstanding_when,
}
use kapra_os.Receivables.Statement.{
  sale_row, payment_row, return_row, statement_entries, balance_before, get_customer_statement,
}

get_customer-same :
    (s : Db) (shop_id id : ℕ) → Triple (λ u. u ≡ s) (get_customer shop_id id) (λ _ u. u ≡ s)
unfolding get_customer
get_customer-same s shop_id id = Keeps-gets _ ▹ λ found. Keeps-or_raise _ _

-- What a statement that is returned consists of.
statement-page :
    (s : Db) (shop_id id : ℕ) (q : StatementQuery)
    → Triple
        (λ u. u ≡ s)
        (get_customer_statement shop_id id q)
        (λ x u.
          x
          ≡ statement_page id q
              (balance_before shop_id id q.start_date s)
              (statement_entries shop_id id q.start_date q.end_date s))
unfolding get_customer_statement pure
statement-page s shop_id id q = get_customer-same s shop_id id ▹▹ λ _. Keeps-lift _ ▹▹ λ _.
    gets-same s _ ▹▹ λ rows.
    Triple-given
      λ a. gets-same s _ ▹▹ λ before. Triple-given λ b. record { at = λ u e. rw (a, b) refl }

-- A page of a statement (`limit`, `offset`) has the entries of the statement without paging that
-- stand there, each with the running balance that it has in the whole.
pub get_customer_statement-pages :
    (s t u : Db) (shop_id id : ℕ) (q : StatementQuery) (page whole : Statement)
    → get_customer_statement shop_id id q s ≡ ok (page, t)
    → get_customer_statement shop_id id (record q { limit = none; offset = pos 0 }) s
      ≡ ok (whole, u)
    → (page.entries ≡ take_if q.limit (drop (pos_part q.offset) whole.entries))
      × (page.total_entries ≡ whole.total_entries)
unfolding statement_page
get_customer_statement-pages s t u shop_id id q page whole e f =
    let one = After-ok _ e ((statement-page s shop_id id q).at s refl) in
    let all =
      After-ok _ f
        ((statement-page s shop_id id (record q { limit = none; offset = pos 0 })).at s refl) in
    let before = balance_before shop_id id q.start_date s in
    let rows = statement_entries shop_id id q.start_date q.end_date s in
    rw (one, all)
      (
        statement_page-entries id q before rows
            ∙ sym (
                ap (λ l. take_if q.limit (drop (pos_part q.offset) l))
                  (statement_page-entries id (record q { limit = none; offset = pos 0 }) before
                    rows)),
        refl,
      )

-- The net of the rows of a statement.
statement_entries-net :
    (s : Db) (shop_id id : ℕ) (start end : Option ℕ)
    → net_of (statement_entries shop_id id start end s)
      ≡ outstanding_when (in_range start end) shop_id id s
unfolding statement_entries outstanding_when
statement_entries-net s shop_id id start end =
    net_of-three (rows_where _ sale_row s.sales) (rows_where _ payment_row s.payments)
      (rows_where _ return_row s.sale_returns)
    ∙ rw
        (
          rows_where-debits _ sale_row (λ x. x.total) (λ x. (refl, refl)) s.sales,
          rows_where-credits _ payment_row (λ p. p.amount) (λ p. (refl, refl)) s.payments,
          rows_where-credits _ return_row (λ x. x.ar_amount) (λ x. (refl, refl)) s.sale_returns,
        )
        (omega int_laws)

before_and_after :
    (s : Db) (shop_id id : ℕ) (start : Option ℕ)
    → balance_before shop_id id start s +ℤ outstanding_when (in_range start none) shop_id id s
      ≡ (compute_balance shop_id id s).outstanding_balance
unfolding outstanding_when compute_balance
before_and_after s shop_id id none =
    rw
      (
        sum_where-undated (sale_counts shop_id id) (λ x. x.created_at) (λ x. x.total) s.sales,
        sum_where-undated (payment_counts shop_id id s.sales) (λ p. p.created_at) (λ p. p.amount)
            s.payments,
        sum_where-undated (return_counts shop_id id s.sales) (λ x. x.created_at) (λ x. x.ar_amount)
            s.sale_returns,
      )
      (omega int_laws)
before_and_after s shop_id id (some start) =
    rw
      (
        ← sum_where-dated (sale_counts shop_id id) (λ x. x.created_at) (λ x. x.total) s.sales start,
        ← sum_where-dated (payment_counts shop_id id s.sales) (λ p. p.created_at) (λ p. p.amount)
            s.payments start,
        ← sum_where-dated (return_counts shop_id id s.sales) (λ x. x.created_at) (λ x. x.ar_amount)
            s.sale_returns start,
      )
      (omega int_laws)

-- A statement that is not cut off by an end date or a limit closes at the customer's outstanding
-- balance, from whatever start date and after however many skipped entries.
pub get_customer_statement-closing :
    (s t : Db) (shop_id id : ℕ) (q : StatementQuery) (x : Statement)
    → q.limit ≡ none
    → q.end_date ≡ none
    → get_customer_statement shop_id id q s ≡ ok (x, t)
    → x.closing_balance ≡ (compute_balance shop_id id s).outstanding_balance
get_customer_statement-closing s t shop_id id q x whole open_end e =
    let same = After-ok _ e ((statement-page s shop_id id q).at s refl) in
    rw same (
      statement_page-closing id q _ _ whole
      ∙ rw (open_end, statement_entries-net s shop_id id q.start_date none)
          (before_and_after s shop_id id q.start_date))
