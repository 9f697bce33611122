-- ===== src/Accounting/Reads.antt =====
-- The reads of backend/app/services/accounting.py: `list_accounts`, `get_account_balance` and
-- `get_account_ledger`.
use kapra_os.Prelude.{
  ℕ, String, suc, ltb, leb, ◌==◌, if◌then◌else◌, Bool, true, false, ◌&&◌, ◌||◌, Option, none, some,
  List, [], ◌∷◌, ℤ, pos, pos_part, ◌+ℤ◌, ◌-ℤ◌,
}
use kapra_os.Tables.{Account, AccountType, LedgerEntry, Reference}
use kapra_os.Session.{Error, Exec, gets, or_raise, lift, ◌>>=◌, ◌>>◌}
use kapra_os.Khata.Sums.{sum_where}
use kapra_os.Khata.Entries.{
  StatementQuery, in_range, take, drop, take_if, validate_statement_arguments,
}

-- `account_type in _DEBIT_NORMAL`
abbrev pub is_debit_normal : AccountType → Bool
is_debit_normal AccountType.asset = true
is_debit_normal AccountType.expense = true
is_debit_normal _ = false

abbrev pub normal_balance : AccountType → ℤ → ℤ → ℤ
normal_balance account_type debit credit =
    if is_debit_normal account_type then debit -ℤ credit else credit -ℤ debit

-- `ORDER BY code`
abbrev pub insert_account : Account → List Account → List Account
insert_account x [] = x ∷ []
insert_account x (y ∷ accounts) =
    let later = insert_account x accounts in
    if leb x.code y.code then x ∷ y ∷ accounts else y ∷ later

abbrev pub accounts_by_code : ℕ → List Account → List Account
accounts_by_code shop_id [] = []
accounts_by_code shop_id (x ∷ accounts) =
    let others = accounts_by_code shop_id accounts in
    if x.shop_id == shop_id then insert_account x others else others

unfoldable pub list_accounts : ℕ → Exec (List Account)
list_accounts shop_id = gets (λ s. accounts_by_code shop_id s.accounts)

abbrev pub find_account : ℕ → ℕ → List Account → Option Account
find_account shop_id id [] = none
find_account shop_id id (x ∷ accounts) =
    if x.id == id && x.shop_id == shop_id then some x else find_account shop_id id accounts

unfoldable pub load_account : ℕ → ℕ → Exec Account
load_account shop_id account_id = do
  found ← gets (λ s. find_account shop_id account_id s.accounts)
  or_raise found Error.account_not_found

-- The rows of one account.
abbrev pub of_account : ℕ → ℕ → LedgerEntry → Bool
of_account shop_id account_id e = e.shop_id == shop_id && e.account_id == account_id

pub record AccountBalance : Type 0 where
  pub account_id : ℕ
  pub code : ℕ
  pub name : String
  pub account_type : AccountType
  pub debit_total : ℤ
  pub credit_total : ℤ
  pub balance : ℤ

-- The balance of an account that was loaded.
unfoldable pub balance_of : ℕ → Account → List LedgerEntry → AccountBalance
unfolding sum_where
balance_of shop_id account ledger =
    let debit = sum_where (of_account shop_id account.id) (λ e. e.debit) ledger in
    let credit = sum_where (of_account shop_id account.id) (λ e. e.credit) ledger in
    record {
      account_id = account.id;
      code = account.code;
      name = account.name;
      account_type = account.account_type;
      debit_total = debit;
      credit_total = credit;
      balance = normal_balance account.account_type debit credit;
    }

unfoldable pub get_account_balance : ℕ → ℕ → Exec AccountBalance
unfolding balance_of
get_account_balance shop_id account_id = do
  account ← load_account shop_id account_id
  gets (λ s. balance_of shop_id account s.ledger)

-- `ORDER BY created_at, id`
abbrev pub entry_in_order : LedgerEntry → LedgerEntry → Bool
entry_in_order a b =
    ltb a.created_at b.created_at || (a.created_at == b.created_at && leb a.id b.id)

unfoldable pub insert_entry : LedgerEntry → List LedgerEntry → List LedgerEntry
insert_entry x [] = x ∷ []
insert_entry x (y ∷ entries) =
    let later = insert_entry x entries in if entry_in_order x y then x ∷ y ∷ entries else y ∷ later

-- `base.order_by(*ordering)`: the entries that a filter takes, in order.
unfoldable pub entries_where : (LedgerEntry → Bool) → List LedgerEntry → List LedgerEntry
unfolding insert_entry
entries_where q [] = []
entries_where q (e ∷ ledger) =
    let others = entries_where q ledger in if q e then insert_entry e others else others

-- The loop over the skipped rows.
unfoldable pub raw_net : List LedgerEntry → ℤ
raw_net [] = pos 0
raw_net (e ∷ entries) = e.debit -ℤ e.credit +ℤ raw_net entries

pub record LedgerLine : Type 0 where
  pub id : ℕ
  pub date : ℕ
  pub description : Option String
  pub debit : ℤ
  pub credit : ℤ
  pub running_balance : ℤ
  pub reference_type : Reference
  pub reference_id : ℕ

pub record AccountLedger : Type 0 where
  pub account_id : ℕ
  pub opening_balance : ℤ
  pub closing_balance : ℤ
  pub total_entries : ℕ
  pub entries : List LedgerLine

-- The loop over the page, with the balance in the account's normal direction.
unfoldable pub ledger_lines : AccountType → ℤ → List LedgerEntry → List LedgerLine
ledger_lines account_type raw [] = []
ledger_lines account_type raw (e ∷ entries) =
    record {
      id = e.id;
      date = e.created_at;
      description = e.description;
      debit = e.debit;
      credit = e.credit;
      running_balance = normal_balance account_type (raw +ℤ (e.debit -ℤ e.credit)) (pos 0);
      reference_type = e.reference_type;
      reference_id = e.reference_id;
    }
    ∷ ledger_lines account_type (raw +ℤ (e.debit -ℤ e.credit)) entries

-- `raw_balance` after that loop.
unfoldable pub raw_closing : ℤ → List LedgerEntry → ℤ
raw_closing raw [] = raw
raw_closing raw (e ∷ entries) = raw_closing (raw +ℤ (e.debit -ℤ e.credit)) entries

abbrev pub entry_count : List LedgerEntry → ℕ
entry_count [] = 0
entry_count (e ∷ entries) = suc (entry_count entries)

-- What stands before the window.
unfoldable pub raw_before : ℕ → ℕ → Option ℕ → List LedgerEntry → ℤ
unfolding sum_where
raw_before shop_id account_id none ledger = pos 0
raw_before shop_id account_id (some start) ledger =
    sum_where (λ e. of_account shop_id account_id e && ltb e.created_at start) (λ e. e.debit) ledger
    -ℤ sum_where (λ e. of_account shop_id account_id e && ltb e.created_at start) (λ e. e.credit)
        ledger

unfoldable pub ledger_page : ℕ → Account → StatementQuery → List LedgerEntry → AccountLedger
unfolding entries_where raw_net ledger_lines raw_closing raw_before
ledger_page shop_id account q ledger =
    let ordered =
      entries_where
        (λ e. of_account shop_id account.id e && in_range q.start_date q.end_date e.created_at)
        ledger in
    let skipped = pos_part q.offset in
    let opening =
      raw_before shop_id account.id q.start_date ledger +ℤ raw_net (take skipped ordered) in
    let page = take_if q.limit (drop skipped ordered) in
    record {
      account_id = account.id;
      opening_balance = normal_balance account.account_type opening (pos 0);
      closing_balance = normal_balance account.account_type (raw_closing opening page) (pos 0);
      total_entries = entry_count ordered;
      entries = ledger_lines account.account_type opening page;
    }

unfoldable pub get_account_ledger : ℕ → ℕ → StatementQuery → Exec AccountLedger
unfolding ledger_page validate_statement_arguments
get_account_ledger shop_id account_id q = do
  account ← load_account shop_id account_id
  lift (validate_statement_arguments q)
  gets (λ s. ledger_page shop_id account q s.ledger)
