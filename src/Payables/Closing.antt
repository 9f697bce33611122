-- ===== src/Payables/Closing.antt =====
-- The supplier's statement closes at the balance of `_compute_balance`.
use kapra_os.Prelude.{ℕ, ◌≡◌, refl, ◌∙◌, Option, none, some, ◌+ℤ◌, int_laws}
use kapra_os.Tables.{Db}
use kapra_os.Session.{ok, pure}
use kapra_os.Session.Keeps.{Triple, After-ok, Keeps-gets, Keeps-or_raise, Keeps-lift, ◌▹◌, ◌▹▹◌}
use kapra_os.Session.Values.{gets-same, Triple-given}
use kapra_os.Purchases.Create.{get_supplier}
use kapra_os.Khata.Entries.{StatementQuery, Statement, in_range, rows_where, net_of, statement_page}
use kapra_os.Khata.Order.{
  net_of-three, statement_page-closing, sum_where-undated, sum_where-dated, rows_where-debits,
  rows_where-credits,
}
use kapra_os.Payables.Balance.{
  purchase_counts, payment_counts, return_counts, compute_balance, outstanding_when,
}
use kapra_os.Payables.Statement.{
  purchase_row, payment_row, return_row, statement_entries, balance_before, get_supplier_statement,
}

get_supplier-same :
    (s : Db) (shop_id id : ℕ) → Triple (λ u. u ≡ s) (get_supplier shop_id id) (λ _ u. u ≡ s)
unfolding get_supplier
get_supplier-same s shop_id id = Keeps-gets _ ▹ λ found. Keeps-or_raise _ _

-- What a statement that is returned consists of.
statement-page :
    (s : Db) (shop_id id : ℕ) (q : StatementQuery)
    → Triple
        (λ u. u ≡ s)
        (get_supplier_statement shop_id id q)
        (λ x u.
          x
          ≡ statement_page id q
              (balance_before shop_id id q.start_date s)
              (statement_entries shop_id id q.start_date q.end_date s))
unfolding get_supplier_statement pure
statement-page s shop_id id q = get_supplier-same s shop_id id ▹▹ λ _. Keeps-lift _ ▹▹ λ _.
    gets-same s _ ▹▹ λ rows.
    Triple-given
      λ a. gets-same s _ ▹▹ λ before. Triple-given λ b. record { at = λ u e. rw (a, b) refl }

-- The net of the rows of a statement.
statement_entries-net :
    (s : Db) (shop_id id : ℕ) (start end : Option ℕ)
    → net_of (statement_entries shop_id id start end s)
      ≡ outstanding_when (in_range start end) shop_id id s
unfolding statement_entries outstanding_when
statement_entries-net s shop_id id start end =
    net_of-three (rows_where _ purchase_row s.purchases) (rows_where _ payment_row s.payments)
      (rows_where _ return_row s.purchase_returns)
    ∙ rw
        (
          rows_where-debits _ purchase_row (λ x. x.total) (λ x. (refl, refl)) s.purchases,
          rows_where-credits _ payment_row (λ p. p.amount) (λ p. (refl, refl)) s.payments,
          rows_where-credits _ return_row (λ x. x.total_amount) (λ x. (refl, refl))
              s.purchase_returns,
        )
        (omega int_laws)

before_and_after :
    (s : Db) (shop_id id : ℕ) (start : Option ℕ)
    → balance_before shop_id id start s +ℤ outstanding_when (in_range start none) shop_id id s
      ≡ (compute_balance shop_id id s).outstanding_balance
unfolding outstanding_when compute_balance
before_and_after s shop_id id none =
    rw
      (
        sum_where-undated (purchase_counts shop_id id) (λ x. x.created_at) (λ x. x.total)
            s.purchases,
        sum_where-undated (payment_counts shop_id id s.purchases) (λ p. p.created_at)
            (λ p. p.amount) s.payments,
        sum_where-undated (return_counts shop_id id) (λ x. x.created_at) (λ x. x.total_amount)
            s.purchase_returns,
      )
      (omega int_laws)
before_and_after s shop_id id (some start) =
    rw
      (
        ← sum_where-dated (purchase_counts shop_id id) (λ x. x.created_at) (λ x. x.total)
            s.purchases start,
        ← sum_where-dated (payment_counts shop_id id s.purchases) (λ p. p.created_at)
            (λ p. p.amount) s.payments start,
        ← sum_where-dated (return_counts shop_id id) (λ x. x.created_at) (λ x. x.total_amount)
            s.purchase_returns start,
      )
      (omega int_laws)

-- A supplier's statement that is not cut off by an end date or a limit closes at the supplier's outstanding
-- balance, from whatever start date and after however many skipped entries.
pub get_supplier_statement-closing :
    (s t : Db) (shop_id id : ℕ) (q : StatementQuery) (x : Statement)
    → q.limit ≡ none
    → q.end_date ≡ none
    → get_supplier_statement shop_id id q s ≡ ok (x, t)
    → x.closing_balance ≡ (compute_balance shop_id id s).outstanding_balance
get_supplier_statement-closing s t shop_id id q x whole open_end e =
    let same = After-ok _ e ((statement-page s shop_id id q).at s refl) in
    rw same (
      statement_page-closing id q _ _ whole
      ∙ rw (open_end, statement_entries-net s shop_id id q.start_date none)
          (before_and_after s shop_id id q.start_date))
