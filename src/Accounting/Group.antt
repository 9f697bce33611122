-- ===== src/Accounting/Group.antt =====
-- `_post_group`, `delete_posting` and `delete_postings_for_reference` of
-- backend/app/services/accounting.py, the only writers of the ledger. Amounts are whole cents, on
-- which `_money` is the identity.
use mathlib.Core.Bool.{not}
use kapra_os.Prelude.{
  ℕ, suc, ◌+◌, String, ◌==◌, if◌then◌else◌, Bool, true, false, ◌&&◌, ◌||◌, Option, none, some, List,
  [], ◌∷◌, ◌++◌, ℤ, pos, ◌+ℤ◌, ltb_ℤ, eqb_ℤ,
}
use kapra_os.Tables.{LedgerEntry, Reference, same_reference}
use kapra_os.Session.{Error, Result, Exec, ok, err, pure, gets, lift, modify, guard, ◌>>=◌, ◌>>◌}

-- One element of `lines`: (account_id, debit, credit, description)
pub record Line : Type 0 where
  pub account_id : ℕ
  pub debit : ℤ
  pub credit : ℤ
  pub description : Option String

abbrev pub debit_line : ℕ → ℤ → Option String → Line
debit_line account_id amount description = record {
  account_id = account_id;
  debit = amount;
  credit = pos 0;
  description = description;
}

abbrev pub credit_line : ℕ → ℤ → Option String → Line
credit_line account_id amount description = record {
  account_id = account_id;
  debit = pos 0;
  credit = amount;
  description = description;
}

abbrev pub in_group : ℕ → Reference → ℕ → LedgerEntry → Bool
in_group shop_id kind reference_id e =
    e.shop_id == shop_id && same_reference e.reference_type kind && e.reference_id == reference_id

-- whether some row satisfies a `where` clause
abbrev pub any_row {ℓ} : {A : Type ℓ} → (A → Bool) → List A → Bool
any_row p [] = false
any_row p (e ∷ rows) = p e || any_row p rows

-- The validation loop: the sums of the debits and of the credits of valid lines.
unfoldable pub check_lines : ℤ → ℤ → List Line → Result (ℤ × ℤ)
check_lines total_debit total_credit [] = ok (total_debit, total_credit)
check_lines total_debit total_credit (line ∷ lines) =
    if ltb_ℤ line.debit (pos 0) || ltb_ℤ line.credit (pos 0)
    then err Error.invalid_ledger_line
    else if ltb_ℤ (pos 0) line.debit && ltb_ℤ (pos 0) line.credit
    then err Error.invalid_ledger_line
    else if eqb_ℤ line.debit (pos 0) && eqb_ℤ line.credit (pos 0)
    then err Error.invalid_ledger_line
    else check_lines (total_debit +ℤ line.debit) (total_credit +ℤ line.credit) lines

-- The rows made of the lines, the first with the identifier drawn as number `n`.
unfoldable pub new_entries : (ℕ → ℕ) → ℕ → ℕ → Reference → ℕ → ℕ → List Line → List LedgerEntry
new_entries uuid4 now shop_id kind reference_id n [] = []
new_entries uuid4 now shop_id kind reference_id n (line ∷ lines) =
    record {
      id = uuid4 n;
      shop_id = shop_id;
      account_id = line.account_id;
      debit = line.debit;
      credit = line.credit;
      reference_type = kind;
      reference_id = reference_id;
      description = line.description;
      created_at = now;
    }
    ∷ new_entries uuid4 now shop_id kind reference_id (suc n) lines

-- `uq_ledger_entries_reference_account`: no two rows of a group on one account
unfoldable pub is_unique : List LedgerEntry → List LedgerEntry → Bool
is_unique ledger [] = true
is_unique ledger (e ∷ entries) =
    not (
      any_row
        (λ f. in_group e.shop_id e.reference_type e.reference_id f && f.account_id == e.account_id)
        ledger)
    && is_unique (ledger ++ e ∷ []) entries

abbrev pub rows {ℓ} : {A : Type ℓ} → List A → ℕ
rows [] = 0
rows (e ∷ l) = suc (rows l)

-- `session.add` of each row, and the flush that checks the constraint
unfoldable pub add_entries : ℕ → Reference → ℕ → List Line → Exec (List LedgerEntry)
add_entries shop_id kind reference_id lines = do
  entries ← gets (λ s. new_entries s.uuid4 s.now shop_id kind reference_id s.drawn lines)
  unique ← gets (λ s. is_unique s.ledger entries)
  guard unique Error.integrity
  modify (λ s. record s { ledger = s.ledger ++ entries; drawn = s.drawn + rows lines })
  pure entries

unfoldable pub post_group : ℕ → Reference → ℕ → List Line → Exec (List LedgerEntry)
post_group shop_id kind reference_id lines = do
  already ← gets (λ s. any_row (in_group shop_id kind reference_id) s.ledger)
  if already then pure [] else do
    totals ← lift (check_lines (pos 0) (pos 0) lines)
    guard (eqb_ℤ totals.0 totals.1) Error.unbalanced_posting
    add_entries shop_id kind reference_id lines

-- The rows that a `where` clause selects, and the others.
abbrev pub select {ℓ} : {A : Type ℓ} → (A → Bool) → List A → List A
select p [] = []
select p (e ∷ l) = let found = select p l in if p e then e ∷ found else found

abbrev pub reject {ℓ} : {A : Type ℓ} → (A → Bool) → List A → List A
reject p [] = []
reject p (e ∷ l) = let kept = reject p l in if p e then kept else e ∷ kept

unfoldable pub delete_entries : (LedgerEntry → Bool) → Exec ℕ
delete_entries chosen = do
  found ← gets (λ s. select chosen s.ledger)
  modify (λ s. record s { ledger = reject chosen s.ledger })
  pure (rows found)

unfoldable pub delete_posting : ℕ → Reference → ℕ → Exec ℕ
delete_posting shop_id kind reference_id = delete_entries (in_group shop_id kind reference_id)

abbrev pub one_of : List Reference → Reference → Bool
one_of [] kind = false
one_of (k ∷ kinds) kind = same_reference kind k || one_of kinds kind

-- An empty list of reference types is as good as none, as in `if reference_types`.
abbrev pub has_type : Option (List Reference) → Reference → Bool
has_type none kind = true
has_type (some []) kind = true
has_type (some (k ∷ kinds)) kind = one_of (k ∷ kinds) kind

abbrev pub refers_to : ℕ → ℕ → Option (List Reference) → LedgerEntry → Bool
refers_to shop_id reference_id reference_types e =
    e.shop_id == shop_id
    && e.reference_id == reference_id
    && has_type reference_types e.reference_type

unfoldable pub delete_postings_for_reference : ℕ → ℕ → Option (List Reference) → Exec ℕ
delete_postings_for_reference shop_id reference_id reference_types =
    delete_entries (refers_to shop_id reference_id reference_types)
