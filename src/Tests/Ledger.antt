-- ===== src/Tests/Ledger.antt =====
-- The ledger of the shop after a receipt and a sale, and the theorems on it.
use kapra_os.Prelude.{ℕ, ◌≡◌, refl, true, some, none, List, [], ◌∷◌, pos, arith}
use kapra_os.Tables.{Account, AccountType}
use kapra_os.Khata.Entries.{StatementQuery}
use kapra_os.Accounting.Reads.{
  AccountBalance, AccountLedger, balance_of, get_account_balance, get_account_ledger,
}
use kapra_os.Accounting.LedgerClosing.{get_account_ledger-closing}
use kapra_os.Accounting.TrialBalance.{HasAccounts, total_over}
use kapra_os.History.TrialBalance.{Reach-trial_balance}
use kapra_os.Tests.Evaluation.{evaluation}
use kapra_os.Tests.Histories.{sold, shop-IsFresh, sold_history}
use kapra_os.Tests.Shop.{state_of, value_of, is_ok, ran}

abbrev first_account : List Account → ℕ
first_account [] = 0
first_account (x ∷ accounts) = x.id

-- The cash account, from day 3 on, without the first row.
abbrev cash : ℕ
cash = first_account sold.accounts

abbrev later_rows : StatementQuery
later_rows = record { start_date = some 3; end_date = none; limit = none; offset = pos 1 }

abbrev no_balance : AccountBalance
no_balance = record {
  account_id = 0;
  code = 0;
  name = "";
  account_type = AccountType.asset;
  debit_total = pos 0;
  credit_total = pos 0;
  balance = pos 0;
}

abbrev no_ledger : AccountLedger
no_ledger = record {
  account_id = 0;
  opening_balance = pos 0;
  closing_balance = pos 0;
  total_entries = 0;
  entries = [];
}

abbrev cash_balance : AccountBalance
cash_balance = value_of (get_account_balance 1 cash sold) no_balance

abbrev cash_ledger : AccountLedger
cash_ledger = value_of (get_account_ledger 1 cash later_rows sold) no_ledger

balance_ok : is_ok (get_account_balance 1 cash sold) ≡ true
unfolding evaluation
balance_ok = refl

ledger_ok : is_ok (get_account_ledger 1 cash later_rows sold) ≡ true
unfolding evaluation
ledger_ok = refl

cash_taken : cash_balance.balance ≡ pos 1200
unfolding evaluation
cash_taken = refl

get_account_ledger-closing_example : cash_ledger.closing_balance ≡ cash_balance.balance
get_account_ledger-closing_example =
    get_account_ledger-closing sold (state_of (get_account_ledger 1 cash later_rows sold) sold)
      (state_of (get_account_balance 1 cash sold) sold) 1 cash later_rows cash_ledger cash_balance
      refl refl (ran (get_account_ledger 1 cash later_rows sold) no_ledger sold ledger_ok)
      (ran (get_account_balance 1 cash sold) no_balance sold balance_ok)

sold-HasAccounts : HasAccounts 1 sold
unfolding evaluation
sold-HasAccounts = record { of_entries = λ k h. ground arith }

Reach-trial_balance_example :
    total_over 1 (λ x. (balance_of 1 x sold.ledger).debit_total) sold.accounts
    ≡ total_over 1 (λ x. (balance_of 1 x sold.ledger).credit_total) sold.accounts
Reach-trial_balance_example = Reach-trial_balance shop-IsFresh sold_history 1 sold-HasAccounts
