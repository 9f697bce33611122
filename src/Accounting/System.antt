-- ===== src/Accounting/System.antt =====
-- The accounts that `ensure_system_accounts` leaves in the table and returns.
use kapra_os.Prelude.{
  ℕ, String, ◌==◌, ◌≡◌, refl, ◌∙◌, if◌then◌else◌, Bool, true, false, none, some, List, [], ◌∷◌,
  ◌++◌, arith, inl, inr, Option-cases, Bool-cases, ==_refl,
}
use kapra_os.Tables.{Db, Account, AccountType}
use kapra_os.Session.{Exec, ok, pure, gets, modify, new_uuid, ◌>>=◌}
use kapra_os.Session.Keeps.{Triple, After-ok, Triple-frame, ◌▹▹◌}
use kapra_os.Accounting.Chart.{
  accounts_of, by_code, shop_exists, default_accounts, ensure_account, ensure_accounts,
  ensure_system_accounts,
}

-- Some account has this code.
abbrev pub has_code : ℕ → List Account → Bool
has_code code [] = false
has_code code (a ∷ rest) = if a.code == code then true else has_code code rest

has_code-append :
    (code : ℕ) (l : List Account) (a : Account)
    → has_code code l ≡ true
    → has_code code (l ++ a ∷ []) ≡ true
has_code-append code [] a h = ground arith
has_code-append code (x ∷ l) a h = ground (arith, has_code-append code l a)

has_code-last : (l : List Account) (a : Account) → has_code a.code (l ++ a ∷ []) ≡ true
has_code-last [] a = rw (==_refl a.code) refl
has_code-last (x ∷ l) a = ground (arith, has_code-last l a)

has_code-by_code :
    (code : ℕ) (l : List Account) (a : Account) → by_code code l ≡ some a → has_code code l ≡ true
has_code-by_code code [] a h = ground arith
has_code-by_code code (x ∷ l) a h = ground (arith, has_code-by_code code l a)

has_code-none : (code : ℕ) (l : List Account) → by_code code l ≡ none → has_code code l ≡ false
has_code-none code [] h = refl
has_code-none code (x ∷ l) h = ground (arith, has_code-none code l)

accounts_of-append :
    (shop_id : ℕ) (l : List Account) (a : Account)
    → a.shop_id ≡ shop_id
    → accounts_of shop_id (l ++ a ∷ []) ≡ accounts_of shop_id l ++ a ∷ []
accounts_of-append shop_id [] a h = rw (h, ==_refl shop_id) refl
accounts_of-append shop_id (x ∷ l) a h = ground (arith, accounts_of-append shop_id l a h)

-- Every default code is there.
abbrev pub HasCodes : List (ℕ × String × AccountType) → List Account → Type 0
HasCodes [] l = Unit
HasCodes (d ∷ defaults) l = (has_code d.0 l ≡ true) × HasCodes defaults l

-- Where nothing is missing, nothing is written.
ensure_accounts-done :
    (shop_id : ℕ) (defaults : List (ℕ × String × AccountType)) (l : List Account) (s : Db)
    → HasCodes defaults l
    → ensure_accounts shop_id defaults l s ≡ ok (l, s)
unfolding ensure_accounts ensure_account ◌>>=◌ pure
ensure_accounts-done shop_id [] l s h = refl
ensure_accounts-done shop_id ((code, name, account_type) ∷ defaults) l s h =
    elim (Option-cases (by_code code l)) [
      | inl missing ↦ ground (arith, has_code-none code l missing, h.0)
      | inr (a, found) ↦ rw (found, ensure_account) (ensure_accounts-done shop_id defaults l s h.1)
    ]

-- The list in hand is the table's, with every code of `before`.
record Follows (shop_id : ℕ) (before l : List Account) (s : Db) : Type 0 where
  table : accounts_of shop_id s.accounts ≡ l
  grows : (code : ℕ) → has_code code before ≡ true → has_code code l ≡ true

record Ensures (shop_id code : ℕ) (before l : List Account) (s : Db) : Type 0 where
  follows : Follows shop_id before l s
  there : has_code code l ≡ true

ensure_account-Ensures :
    (shop_id code : ℕ) (name : String) (account_type : AccountType) (l : List Account)
    → Triple
        (λ s. accounts_of shop_id s.accounts ≡ l)
        (ensure_account shop_id (code, name, account_type) l)
        (Ensures shop_id code l)
unfolding ensure_account ◌>>=◌ pure modify new_uuid
ensure_account-Ensures shop_id code name account_type l = elim (Option-cases (by_code code l)) [
  | inl missing ↦
      rw (missing, ensure_account)
        (record {
          at = λ s h. elim (Bool-cases (shop_exists shop_id s)) [
            | inr unknown ↦ rw unknown tt
            | inl known ↦ rw known (record {
              follows = record {
                table = accounts_of-append shop_id s.accounts _ refl ∙ rw h refl;
                grows = λ c k. has_code-append c l _ k;
              };
              there = has_code-last l _;
            })
          ];
        })
  | inr (a, found) ↦
      rw (found, ensure_account)
        (record {
          at = λ s h. record {
            follows = record { table = h; grows = λ c k. k };
            there = has_code-by_code code l a found;
          };
        })
]

record EnsuresAll (shop_id : ℕ) (defaults : List (ℕ × String × AccountType))
    (before l : List Account) (s : Db) : Type 0 where
  follows : Follows shop_id before l s
  there : HasCodes defaults l

ensure_accounts-EnsuresAll :
    (shop_id : ℕ) (defaults : List (ℕ × String × AccountType)) (l : List Account)
    → Triple
        (λ s. accounts_of shop_id s.accounts ≡ l)
        (ensure_accounts shop_id defaults l)
        (EnsuresAll shop_id defaults l)
unfolding ensure_accounts pure
ensure_accounts-EnsuresAll shop_id [] l = record {
  at = λ s h. record { follows = record { table = h; grows = λ c k. k }; there = tt };
}
ensure_accounts-EnsuresAll shop_id ((code, name, account_type) ∷ defaults) l =
    ensure_account-Ensures shop_id code name account_type l ▹▹ λ l'.
    Triple-frame (ensure_accounts-EnsuresAll shop_id defaults l') (λ s h. h.follows.table)
      λ s h l'' t k. record {
        follows = record {
          table = k.follows.table;
          grows = λ c m. k.follows.grows c (h.follows.grows c m);
        };
        there = (k.follows.grows code h.there, k.there);
      }

ensure_system_accounts-EnsuresAll :
    (shop_id : ℕ)
    → Triple
        (λ s. Unit)
        (ensure_system_accounts shop_id)
        (λ l t. (accounts_of shop_id t.accounts ≡ l) × HasCodes default_accounts l)
unfolding ensure_system_accounts ◌>>=◌ gets
ensure_system_accounts-EnsuresAll shop_id = record {
  at = λ s h.
      let run =
        ensure_accounts-EnsuresAll shop_id default_accounts (accounts_of shop_id s.accounts) in
      (Triple-frame run (λ s' e. e) (λ s' e l t k. (k.follows.table, k.there))).at s refl;
}

ensure_system_accounts-twice :
    (shop_id : ℕ) (s t : Db) (accounts : List Account)
    → ensure_system_accounts shop_id s ≡ ok (accounts, t)
    → (ensure_system_accounts shop_id t ≡ ok (accounts, t)) × HasCodes default_accounts accounts
unfolding ensure_system_accounts ◌>>=◌ gets
ensure_system_accounts-twice shop_id s t accounts e =
    let after =
      After-ok (λ l u. (accounts_of shop_id u.accounts ≡ l) × HasCodes default_accounts l) e
        ((ensure_system_accounts-EnsuresAll shop_id).at s tt) in
    (rw after.0 (ensure_accounts-done shop_id default_accounts accounts t after.1), after.1)

-- The list that a run returns, where it leaves the shop there.
abbrev Returns : ℕ → Exec (List Account) → Db → Type 0
Returns shop_id m s =
    (l : List Account) × (t : Db) × (m s ≡ ok (l, t)) × (shop_exists shop_id t ≡ true)

ensure_account-returns :
    (shop_id : ℕ) (d : ℕ × String × AccountType) (l : List Account) (s : Db)
    → shop_exists shop_id s ≡ true
    → Returns shop_id (ensure_account shop_id d l) s
unfolding ensure_account ◌>>=◌ pure modify new_uuid
ensure_account-returns shop_id (code, name, account_type) l s exists =
    elim (Option-cases (by_code code l)) [
      | inl missing ↦ rw (missing, ensure_account, exists) (_, _, refl, exists)
      | inr (a, found) ↦ rw (found, ensure_account) (_, _, refl, exists)
    ]

ensure_accounts-returns :
    (shop_id : ℕ) (defaults : List (ℕ × String × AccountType)) (l : List Account) (s : Db)
    → shop_exists shop_id s ≡ true
    → Returns shop_id (ensure_accounts shop_id defaults l) s
unfolding ensure_accounts ◌>>=◌ pure
ensure_accounts-returns shop_id [] l s exists = (_, _, refl, exists)
ensure_accounts-returns shop_id (d ∷ defaults) l s exists =
    let first = ensure_account-returns shop_id d l s exists in
    rw (first.2) (ensure_accounts-returns shop_id defaults first.0 first.1 first.3)

-- For a shop that exists, `ensure_system_accounts` returns: accounts with one for every default
-- code, and a second call returns the same accounts and writes nothing.
pub ensure_system_accounts-returns :
    (shop_id : ℕ) (s : Db)
    → shop_exists shop_id s ≡ true
    → (accounts : List Account) × (t : Db) × (ensure_system_accounts shop_id s ≡ ok (accounts, t))
      × (ensure_system_accounts shop_id t ≡ ok (accounts, t))
      × HasCodes default_accounts accounts
unfolding ensure_system_accounts ◌>>=◌ gets
ensure_system_accounts-returns shop_id s exists =
    let run =
      ensure_accounts-returns shop_id default_accounts (accounts_of shop_id s.accounts) s exists in
    let again = ensure_system_accounts-twice shop_id s run.1 run.0 run.2 in
    (run.0, run.1, run.2, again.0, again.1)
