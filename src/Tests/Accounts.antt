-- ===== src/Tests/Accounts.antt =====
-- The accounts of a shop that has none yet.
use kapra_os.Prelude.{◌≡◌, refl, List}
use kapra_os.Tables.{Db, Account}
use kapra_os.Session.{ok}
use kapra_os.Accounting.Chart.{default_accounts, ensure_system_accounts}
use kapra_os.Accounting.System.{HasCodes, ensure_system_accounts-returns}
use kapra_os.Tests.Shop.{shop}

ensure_system_accounts-returns_example :
    (accounts : List Account) × (t : Db) × (ensure_system_accounts 1 shop ≡ ok (accounts, t))
    × (ensure_system_accounts 1 t ≡ ok (accounts, t))
    × HasCodes default_accounts accounts
ensure_system_accounts-returns_example = ensure_system_accounts-returns 1 shop refl
