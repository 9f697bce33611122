-- ===== src/History/TrialBalance.antt =====
-- The trial balance in every database that a history of commits reaches.
use kapra_os.Prelude.{ℕ, ◌≡◌}
use kapra_os.Tables.{Db}
use kapra_os.Accounting.Reads.{balance_of}
use kapra_os.Accounting.TrialBalance.{HasAccounts, total_over, trial_balance}
use kapra_os.History.Steps.{Reach, IsFresh}
use kapra_os.History.Reached.{Reach-IsBalanced}

-- In every database that a history of commits reaches from a fresh one, the debit totals and the
-- credit totals of `get_account_balance` over a shop's accounts have one sum, if each ledger row of
-- the shop names one of its accounts, once.
pub Reach-trial_balance :
    {s t : Db}
    → IsFresh s
    → Reach s t
    → (shop_id : ℕ) → HasAccounts shop_id t
    → total_over shop_id (λ x. (balance_of shop_id x t.ledger).debit_total) t.accounts
      ≡ total_over shop_id (λ x. (balance_of shop_id x t.ledger).credit_total) t.accounts
Reach-trial_balance {t} fresh reached shop_id keys =
    trial_balance shop_id t (Reach-IsBalanced fresh reached) keys
