-- ===== src/Accounting/LedgerClosing.antt =====
-- An account's ledger closes at its balance.
use kapra_os.Prelude.{
  ℕ, suc, zero, Bool, ◌≡◌, refl, sym, ap, ◌∙◌, ◌&&◌, Option, none, some, List, [], ◌∷◌, ℤ, pos,
  pos_part, ◌+ℤ◌, ◌-ℤ◌, int_laws, Bool-cases, inl, inr,
}
use kapra_os.Tables.{Account, AccountType, LedgerEntry, Db}
use kapra_os.Session.{Error, ok, pure, gets, raise, or_raise}
use kapra_os.Session.Values.{Also, Triple-given}
use kapra_os.Session.Keeps.{Triple, After-ok, Keeps-lift, ◌▹▹◌}
use kapra_os.Khata.Sums.{sum_where}
use kapra_os.Khata.Entries.{StatementQuery, in_range, take, drop}
use kapra_os.Khata.Order.{sum_where-undated, sum_where-dated}
use kapra_os.Accounting.Reads.{
  is_debit_normal, normal_balance, of_account, entry_in_order, insert_entry, entries_where, raw_net,
  raw_closing, raw_before, ledger_page, balance_of, AccountLedger, AccountBalance, find_account,
  load_account, get_account_ledger, get_account_balance,
}

insert_entry-net :
    (x : LedgerEntry) (l : List LedgerEntry) → raw_net (insert_entry x l) ≡ raw_net (x ∷ l)
unfolding insert_entry raw_net
insert_entry-net x [] = refl
insert_entry-net x (y ∷ l) = elim (Bool-cases (entry_in_order x y)) [
  | inl e ↦ rw e refl
  | inr e ↦ rw (e, insert_entry-net x l) (omega int_laws)
]

entries_where-net :
    (q : LedgerEntry → Bool) (l : List LedgerEntry)
    → raw_net (entries_where q l) ≡ sum_where q (λ e. e.debit) l -ℤ sum_where q (λ e. e.credit) l
unfolding entries_where raw_net sum_where
entries_where-net q [] = omega int_laws
entries_where-net q (x ∷ l) = elim (Bool-cases (q x)) [
  | inl e ↦
      rw e (insert_entry-net x (entries_where q l) ∙ rw (entries_where-net q l) (omega int_laws))
  | inr e ↦ rw e (entries_where-net q l)
]

raw_closing-net : (raw : ℤ) (l : List LedgerEntry) → raw_closing raw l ≡ raw +ℤ raw_net l
unfolding raw_closing raw_net
raw_closing-net raw [] = omega int_laws
raw_closing-net raw (x ∷ l) = raw_closing-net (raw +ℤ (x.debit -ℤ x.credit)) l ∙ omega int_laws

skipped-net : (n : ℕ) (l : List LedgerEntry) → raw_net (take n l) +ℤ raw_net (drop n l) ≡ raw_net l
unfolding raw_net
skipped-net zero l = omega int_laws
skipped-net (suc n) [] = omega int_laws
skipped-net (suc n) (x ∷ l) = rw (← skipped-net n l) (omega int_laws)

-- Everything before the window with everything in it.
raw_before-window :
    (shop_id id : ℕ) (start : Option ℕ) (l : List LedgerEntry)
    → raw_before shop_id id start l
        +ℤ raw_net
            (entries_where (λ e. of_account shop_id id e && in_range start none e.created_at) l)
      ≡ sum_where (of_account shop_id id) (λ e. e.debit) l
        -ℤ sum_where (of_account shop_id id) (λ e. e.credit) l
unfolding raw_before
raw_before-window shop_id id none l =
    rw
      (
        entries_where-net (λ e. of_account shop_id id e && in_range none none e.created_at) l,
        sum_where-undated (of_account shop_id id) (λ e. e.created_at) (λ e. e.debit) l,
        sum_where-undated (of_account shop_id id) (λ e. e.created_at) (λ e. e.credit) l,
      )
      (omega int_laws)
raw_before-window shop_id id (some start) l =
    rw
      (
        entries_where-net (λ e. of_account shop_id id e && in_range (some start) none e.created_at)
            l,
        ← sum_where-dated (of_account shop_id id) (λ e. e.created_at) (λ e. e.debit) l start,
        ← sum_where-dated (of_account shop_id id) (λ e. e.created_at) (λ e. e.credit) l start,
      )
      (omega int_laws)

normal_minus :
    (t : AccountType) (a b : ℤ) → normal_balance t (a -ℤ b) (pos 0) ≡ normal_balance t a b
normal_minus t a b = elim (Bool-cases (is_debit_normal t)) [
  | inl e ↦ rw e (omega int_laws)
  | inr e ↦ rw e (omega int_laws)
]

ledger_page-closing :
    (shop_id : ℕ) (account : Account) (q : StatementQuery) (l : List LedgerEntry)
    → q.limit ≡ none
    → q.end_date ≡ none
    → (ledger_page shop_id account q l).closing_balance ≡ (balance_of shop_id account l).balance
unfolding ledger_page balance_of
ledger_page-closing shop_id account q l whole open_end =
    rw (whole, open_end)
      (ap (λ raw. normal_balance account.account_type raw (pos 0))
          (raw_closing-net _ (drop (pos_part q.offset) (entries_where _ l))
            ∙ total _ _ _ _ (skipped-net (pos_part q.offset) (entries_where _ l))
            ∙ raw_before-window shop_id account.id q.start_date l)
        ∙ normal_minus account.account_type _ _)
  where
    total : (b m n k : ℤ) → m +ℤ n ≡ k → b +ℤ m +ℤ n ≡ b +ℤ k
    total b m n k h = rw (← h) (omega int_laws)

some_same : {x y : Account} → some x ≡ some y → x ≡ y
some_same h = cc

module _ (s : Db) (shop_id id : ℕ) where
  load_account-found :
      Triple
        (λ u. u ≡ s)
        (load_account shop_id id)
        (λ a. Also (λ u. u ≡ s) (find_account shop_id id s.accounts ≡ some a))
  unfolding load_account pure gets raise
  load_account-found = gets-same ▹▹ λ o. Triple-given λ same. found_or_raise o same
    where
      found_or_raise :
          (o : Option Account)
          → find_account shop_id id s.accounts ≡ o
          → Triple
              (λ u. u ≡ s)
              (or_raise o Error.account_not_found)
              (λ a. Also (λ u. u ≡ s) (find_account shop_id id s.accounts ≡ some a))
      found_or_raise none same = record { at = λ u e. tt }
      found_or_raise (some a) same = record { at = λ u e. record { base = e; fact = same } }

      gets-same :
          Triple
            (λ u. u ≡ s)
            (gets (λ u. find_account shop_id id u.accounts))
            (λ o. Also (λ u. u ≡ s) (find_account shop_id id s.accounts ≡ o))
      gets-same = record {
        at = λ u e. record {
          base = e;
          fact = ap (λ (v : Db). find_account shop_id id v.accounts) (sym e);
        };
      }

  get_account_ledger-page :
      (q : StatementQuery)
      → Triple
          (λ u. u ≡ s)
          (get_account_ledger shop_id id q)
          (λ x u.
            (a : Account) × (find_account shop_id id s.accounts ≡ some a)
            × (x ≡ ledger_page shop_id a q s.ledger))
  unfolding get_account_ledger gets
  get_account_ledger-page q = load_account-found ▹▹ λ a. Triple-given λ found. Keeps-lift _ ▹▹ λ _.
      record { at = λ u e. (a, found, ap (λ (v : Db). ledger_page shop_id a q v.ledger) e) }

  get_account_balance-balance :
      Triple
        (λ u. u ≡ s)
        (get_account_balance shop_id id)
        (λ x u.
          (a : Account) × (find_account shop_id id s.accounts ≡ some a)
          × (x ≡ balance_of shop_id a s.ledger))
  unfolding get_account_balance gets
  get_account_balance-balance = load_account-found ▹▹ λ a.
      Triple-given
        λ found. record { at = λ u e. (a, found, ap (λ (v : Db). balance_of shop_id a v.ledger) e) }

-- An account's ledger that is not cut off by an end date or a limit closes at the balance that
-- `get_account_balance` gives, from whatever start date and after however many skipped entries.
pub get_account_ledger-closing :
    (s t u : Db) (shop_id id : ℕ) (q : StatementQuery) (x : AccountLedger) (b : AccountBalance)
    → q.limit ≡ none
    → q.end_date ≡ none
    → get_account_ledger shop_id id q s ≡ ok (x, t)
    → get_account_balance shop_id id s ≡ ok (b, u)
    → x.closing_balance ≡ b.balance
get_account_ledger-closing s t u shop_id id q x b whole open_end e f =
    let page = After-ok _ e ((get_account_ledger-page s shop_id id q).at s refl) in
    let total = After-ok _ f ((get_account_balance-balance s shop_id id).at s refl) in
    rw (page.2, total.2, some_same (sym page.1 ∙ total.1))
      (ledger_page-closing shop_id total.0 q s.ledger whole open_end)
