-- ===== src/Accounting/TrialBalance.antt =====
-- The trial balance: the debits and the credits of all the accounts of a shop.
use kapra_os.Prelude.{
  ℕ, ◌==◌, if◌then◌else◌, Bool, true, ◌≡◌, refl, sym, ◌∙◌, ◌&&◌, some, List, [], ◌∷◌, ℤ, pos, ◌+ℤ◌,
  arith, Bool-cases, inl, inr,
}
use kapra_os.Tables.{Db, Account, LedgerEntry}
use kapra_os.Accounting.Group.{any_row}
use kapra_os.Accounting.Books.Sums.{IsBalanced, Groups, sum_of}
use kapra_os.Khata.Sums.{sum_where, count_where}
use kapra_os.Khata.Owners.{sum_over, sum_over-owners}
use kapra_os.Accounting.Reads.{of_account, balance_of}

-- A total over the accounts of a shop.
unfoldable pub total_over : ℕ → (Account → ℤ) → List Account → ℤ
total_over shop_id f [] = pos 0
total_over shop_id f (x ∷ accounts) =
    let others = total_over shop_id f accounts in
    if x.shop_id == shop_id then f x +ℤ others else others

abbrev pub account_ids : ℕ → List Account → List ℕ
account_ids shop_id [] = []
account_ids shop_id (x ∷ accounts) =
    let others = account_ids shop_id accounts in
    if x.shop_id == shop_id then x.id ∷ others else others

-- The foreign key to `accounts` and its primary key: the account of a ledger row of the shop is an
-- account of the shop, once.
pub record HasAccounts (shop_id : ℕ) (s : Db) : Type 0 where
  pub of_entries :
      (k : ℕ)
      → any_row (λ e. e.shop_id == shop_id && e.account_id == k) s.ledger ≡ true
      → count_where (λ c. k == c) (account_ids shop_id s.accounts) ≡ 1

total_over-ids :
    (shop_id : ℕ) (f : ℕ → ℤ) (accounts : List Account)
    → total_over shop_id (λ x. f x.id) accounts ≡ sum_over (account_ids shop_id accounts) f
unfolding total_over sum_over
total_over-ids shop_id f [] = refl
total_over-ids shop_id f (x ∷ accounts) = elim (Bool-cases (x.shop_id == shop_id)) [
  | inl e ↦ rw (e, total_over-ids shop_id f accounts) refl
  | inr e ↦ rw (e, total_over-ids shop_id f accounts) refl
]

and_comm : (a b : Bool) → (a && b) ≡ (b && a)
and_comm a b = ground arith

-- The rows of a shop, as a set of posting groups.
abbrev in_shop : ℕ → Groups
in_shop shop_id s k r = s == shop_id

sum_where-of :
    (shop_id : ℕ) (f : LedgerEntry → ℤ) (ledger : List LedgerEntry)
    → sum_where (λ e. e.shop_id == shop_id) f ledger ≡ sum_of (in_shop shop_id) f ledger
unfolding sum_where
sum_where-of shop_id f [] = refl
sum_where-of shop_id f (e ∷ ledger) = rw (sum_where-of shop_id f ledger) refl

module _ (shop_id : ℕ) (s : Db) (keys : HasAccounts shop_id s) (f : LedgerEntry → ℤ) where
  account_totals :
      total_over shop_id (λ x. sum_where (of_account shop_id x.id) f s.ledger) s.accounts
      ≡ sum_of (in_shop shop_id) f s.ledger
  account_totals =
      total_over-ids shop_id (λ id. sum_where (of_account shop_id id) f s.ledger) s.accounts
      ∙ sum_over-owners (λ e. e.shop_id == shop_id) (λ e. some e.account_id) (of_account shop_id)
          (λ e. e.shop_id == shop_id) f (account_ids shop_id s.accounts) s.ledger
          (λ c e. and_comm (e.shop_id == shop_id) (e.account_id == c))
          (λ e h. (h, e.account_id, refl)) keys.of_entries
      ∙ sum_where-of shop_id f s.ledger

-- Over the accounts of a shop, the debit totals and the credit totals of `get_account_balance` have
-- one sum, if the ledger is balanced and each of its rows names an account of the shop, once.
pub trial_balance :
    (shop_id : ℕ) (s : Db)
    → IsBalanced s
    → HasAccounts shop_id s
    → total_over shop_id (λ x. (balance_of shop_id x s.ledger).debit_total) s.accounts
      ≡ total_over shop_id (λ x. (balance_of shop_id x s.ledger).credit_total) s.accounts
unfolding balance_of
trial_balance shop_id s balanced keys =
    account_totals shop_id s keys (λ e. e.debit)
    ∙ balanced.groups (in_shop shop_id)
    ∙ sym (account_totals shop_id s keys (λ e. e.credit))
