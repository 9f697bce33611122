-- ===== src/Accounting/Frame.antt =====
-- The accounting service writes the ledger and the accounts, and draws identifiers.
use kapra_os.Prelude.{ℕ, String, ◌≡◌, refl, Option, List, [], ◌∷◌, ◌++◌, inl, inr, Option-cases}
use kapra_os.Tables.{Db, Account, AccountType, LedgerEntry, Reference, Sale, Purchase, Expense}
use kapra_os.Session.{modify, new_uuid}
use kapra_os.Session.Keeps.{
  Keeps, Keeps-bind, Keeps-modify, Keeps-pure, Keeps-gets, Keeps-or_raise, keeps_rules,
}
use kapra_os.Accounting.Chart.{
  ensure_account, ensure_accounts, ensure_system_accounts, account, by_code, default_accounts,
}
use kapra_os.Accounting.Group.{
  Line, add_entries, post_group, delete_entries, delete_postings_for_reference,
}
use kapra_os.Accounting.Posts.{post_sale, post_cogs, post_purchase, post_transfer, post_expense}

-- A property that reads only the stock: the inventory and its movements.
-- A property that survives any change of the accounts, the ledger and the counter of identifiers.
abbrev pub IgnoresBooks : (Db → Type 0) → Type 0
IgnoresBooks P =
    (s : Db) (accounts : List Account) (ledger : List LedgerEntry) (drawn : ℕ)
    → P s
    → P (record s { accounts = accounts; ledger = ledger; drawn = drawn })

abbrev pub ReadsStock : (Db → Type 0) → Type 0
ReadsStock P = (s t : Db) → s.inventory ≡ t.inventory → s.movements ≡ t.movements → P s → P t

pub ReadsStock-IgnoresBooks : {P : Db → Type 0} → ReadsStock P → IgnoresBooks P
ReadsStock-IgnoresBooks same s accounts ledger drawn h = same s _ refl refl h

module _ {P : Db → Type 0} (same : IgnoresBooks P) where
  pub new_uuid-keeps : Keeps P new_uuid
  unfolding new_uuid
  new_uuid-keeps = record { at = λ s h. same s s.accounts s.ledger _ h }

  add_entries-keeps :
      (shop_id : ℕ) (kind : Reference) (reference_id : ℕ) (lines : List Line)
      → Keeps P (add_entries shop_id kind reference_id lines)
  unfolding add_entries
  add_entries-keeps shop_id kind reference_id lines = Keeps-bind _ _ (Keeps-gets _) λ entries.
      Keeps-bind _ _ (Keeps-gets _) λ unique.
        Keeps-bind _ _ (search keeps_rules)
          λ _. Keeps-bind _ _ (Keeps-modify _ λ s h. same s s.accounts _ _ h) λ _. Keeps-pure _

  pub post_group-keeps :
      (shop_id : ℕ) (kind : Reference) (reference_id : ℕ) (lines : List Line)
      → Keeps P (post_group shop_id kind reference_id lines)
  unfolding post_group
  post_group-keeps shop_id kind reference_id lines =
      search (keeps_rules, add_entries-keeps) depth 10

  delete_entries-keeps : (q : LedgerEntry → _) → Keeps P (delete_entries q)
  unfolding delete_entries
  delete_entries-keeps q = Keeps-bind _ _ (Keeps-gets _) λ found.
      Keeps-bind _ _ (Keeps-modify _ λ s h. same s s.accounts _ s.drawn h) λ _. Keeps-pure _

  pub delete_postings-keeps :
      (shop_id reference_id : ℕ) (kinds : Option (List Reference))
      → Keeps P (delete_postings_for_reference shop_id reference_id kinds)
  unfolding delete_postings_for_reference
  delete_postings-keeps shop_id reference_id kinds = delete_entries-keeps _

  add_account-keeps :
      (a : Account) → Keeps P (modify (λ s. record s { accounts = s.accounts ++ a ∷ [] }))
  add_account-keeps a = Keeps-modify _ λ s h. same s _ s.ledger s.drawn h

  ensure_account-keeps :
      (shop_id : ℕ) (d : ℕ × String × AccountType) (known : List Account)
      → Keeps P (ensure_account shop_id d known)
  unfolding ensure_account
  ensure_account-keeps shop_id (code, name, account_type) known =
      elim (Option-cases (by_code code known)) [
        | inl missing ↦
            rw (missing, ensure_account) (search (keeps_rules, new_uuid-keeps, add_account-keeps))
        | inr (a, found) ↦ rw (found, ensure_account) (Keeps-pure known)
      ]

  ensure_accounts-keeps :
      (shop_id : ℕ) (defaults : List (ℕ × String × AccountType)) (known : List Account)
      → Keeps P (ensure_accounts shop_id defaults known)
  unfolding ensure_accounts
  ensure_accounts-keeps shop_id [] known = Keeps-pure known
  ensure_accounts-keeps shop_id (d ∷ defaults) known =
      Keeps-bind _ _ (ensure_account-keeps shop_id d known) (ensure_accounts-keeps shop_id defaults)

  pub ensure_system_accounts-keeps : (shop_id : ℕ) → Keeps P (ensure_system_accounts shop_id)
  unfolding ensure_system_accounts
  ensure_system_accounts-keeps shop_id =
      Keeps-bind _ _ (Keeps-gets _) (ensure_accounts-keeps shop_id default_accounts)

  pub account-keeps : (accounts : List Account) (code : ℕ) → Keeps P (account accounts code)
  unfolding account
  account-keeps accounts code = Keeps-or_raise _ _

  pub post_sale-keeps :
      (sale : Sale) (description : Option String) → Keeps P (post_sale sale description)
  unfolding post_sale
  post_sale-keeps sale description =
      search (keeps_rules, ensure_system_accounts-keeps, account-keeps, post_group-keeps) depth 20

  pub post_cogs-keeps :
      (sale : Sale) (description : Option String) → Keeps P (post_cogs sale description)
  unfolding post_cogs
  post_cogs-keeps sale description =
      search (keeps_rules, ensure_system_accounts-keeps, account-keeps, post_group-keeps) depth 20

  pub post_purchase-keeps :
      (purchase : Purchase) (description : Option String)
      → Keeps P (post_purchase purchase description)
  unfolding post_purchase post_transfer
  post_purchase-keeps purchase description =
      search (keeps_rules, ensure_system_accounts-keeps, account-keeps, post_group-keeps) depth 20

  pub post_expense-keeps :
      (expense : Expense) (description : Option String) → Keeps P (post_expense expense description)
  unfolding post_expense post_transfer
  post_expense-keeps expense description =
      search (keeps_rules, ensure_system_accounts-keeps, account-keeps, post_group-keeps) depth 20

pub ruleset frame_rules =
    (keeps_rules, ensure_system_accounts-keeps, account-keeps, post_group-keeps)
