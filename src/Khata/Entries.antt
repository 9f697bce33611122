-- ===== src/Khata/Entries.antt =====
-- The statement of one party: the rows of the `UNION ALL`, their order, and the loop that carries
-- the running balance.
use kapra_os.Prelude.{
  ℕ, String, zero, suc, ltb, leb, ◌==◌, if◌then◌else◌, Bool, true, ◌&&◌, ◌||◌, Option, none, some,
  List, [], ◌∷◌, ℤ, pos, pos_part, ◌+ℤ◌, ◌-ℤ◌, ltb_ℤ, not,
}
use kapra_os.Tables.{PaymentMethod, Text}
use kapra_os.Session.Outcome.{Error, Result, require, ◌>>◌}

-- `StatementEntryType`: the document is the sale or the purchase.
pub data StatementEntryType : Type 0 where
  document payment return : StatementEntryType

-- The column `reference`: an invoice number, or the text of a payment or a return.
pub data EntryReference : Type 0 where
  number : Option Text → EntryReference
  text : Option String → EntryReference

-- One row of `_statement_entries`.
pub record EntryRow : Type 0 where
  pub entry_type : StatementEntryType
  pub created_at : ℕ
  pub entry_id : ℕ
  pub document_id : Option ℕ
  pub payment_id : Option ℕ
  pub return_id : Option ℕ
  pub invoice_number : Option Text
  pub reference : EntryReference
  pub payment_method : Option PaymentMethod
  pub debit : ℤ
  pub credit : ℤ

-- `entry_rank`
abbrev pub entry_rank : StatementEntryType → ℕ
entry_rank StatementEntryType.document = 0
entry_rank StatementEntryType.payment = 1
entry_rank StatementEntryType.return = 2

-- `ORDER BY created_at, entry_rank, entry_id`
abbrev pub in_order : EntryRow → EntryRow → Bool
in_order a b =
    ltb a.created_at b.created_at
    || (a.created_at == b.created_at
        && (ltb (entry_rank a.entry_type) (entry_rank b.entry_type)
            || (entry_rank a.entry_type == entry_rank b.entry_type && leb a.entry_id b.entry_id)))

unfoldable pub insert_row : EntryRow → List EntryRow → List EntryRow
insert_row x [] = x ∷ []
insert_row x (y ∷ rows) =
    let later = insert_row x rows in if in_order x y then x ∷ y ∷ rows else y ∷ later

unfoldable pub order_rows : List EntryRow → List EntryRow
unfolding insert_row
order_rows [] = []
order_rows (x ∷ rows) = insert_row x (order_rows rows)

abbrev pub not_before : Option ℕ → ℕ → Bool
not_before none t = true
not_before (some start) t = not (ltb t start)

abbrev pub not_after : Option ℕ → ℕ → Bool
not_after none t = true
not_after (some end) t = not (ltb end t)

-- `_apply_date_range`
abbrev pub in_range : Option ℕ → Option ℕ → ℕ → Bool
in_range start end t = not_before start t && not_after end t

-- `LIMIT` and `OFFSET`
module _ {A : Type 0} where
  abbrev pub take : ℕ → List A → List A
  take zero l = []
  take (suc n) [] = []
  take (suc n) (x ∷ l) = x ∷ take n l

  abbrev pub drop : ℕ → List A → List A
  drop zero l = l
  drop (suc n) [] = []
  drop (suc n) (x ∷ l) = drop n l

  abbrev pub take_if : Option ℤ → List A → List A
  take_if none l = l
  take_if (some n) l = take (pos_part n) l

-- `SELECT row WHERE q`
unfoldable pub rows_where : {A : Type 0} → (A → Bool) → (A → EntryRow) → List A → List EntryRow
rows_where q row [] = []
rows_where q row (x ∷ l) = let others = rows_where q row l in if q x then row x ∷ others else others

-- `SUM(debit - credit)`
unfoldable pub net_of : List EntryRow → ℤ
net_of [] = pos 0
net_of (x ∷ rows) = x.debit -ℤ x.credit +ℤ net_of rows

pub record StatementEntry : Type 0 where
  pub row : EntryRow
  pub amount : ℤ
  pub running_balance : ℤ

abbrev pub entry_amount : StatementEntryType → ℤ → ℤ → ℤ
entry_amount StatementEntryType.document debit credit = debit
entry_amount _ debit credit = credit

-- The loop over the rows of the page.
unfoldable pub run_entries : ℤ → List EntryRow → List StatementEntry
run_entries balance [] = []
run_entries balance (x ∷ rows) =
    record {
      row = x;
      amount = entry_amount x.entry_type x.debit x.credit;
      running_balance = balance +ℤ x.debit -ℤ x.credit;
    }
    ∷ run_entries (balance +ℤ x.debit -ℤ x.credit) rows

-- `balance` after that loop.
unfoldable pub closing_of : ℤ → List EntryRow → ℤ
closing_of balance [] = balance
closing_of balance (x ∷ rows) = closing_of (balance +ℤ x.debit -ℤ x.credit) rows

abbrev pub row_count : List EntryRow → ℕ
row_count [] = 0
row_count (x ∷ rows) = suc (row_count rows)

-- The dates and the page that a statement is asked for.
pub record StatementQuery : Type 0 where
  pub start_date : Option ℕ
  pub end_date : Option ℕ
  pub limit : Option ℤ
  pub offset : ℤ

abbrev pub range_allowed : Option ℕ → Option ℕ → Bool
range_allowed (some start) (some end) = leb start end
range_allowed _ _ = true

abbrev pub limit_allowed : Option ℤ → Bool
limit_allowed none = true
limit_allowed (some n) = ltb_ℤ (pos 0) n

-- `_validate_statement_arguments`
unfoldable pub validate_statement_arguments : StatementQuery → Result (Unit {0})
validate_statement_arguments q = do
  require (range_allowed q.start_date q.end_date) Error.invalid_statement_range
  require (not (ltb_ℤ q.offset (pos 0))) Error.invalid_pagination
  require (limit_allowed q.limit) Error.invalid_pagination

-- `CustomerStatement` and `SupplierStatement`
pub record Statement : Type 0 where
  pub party_id : ℕ
  pub opening_balance : ℤ
  pub closing_balance : ℤ
  pub total_entries : ℕ
  pub entries : List StatementEntry

-- The page of a statement, from the balance before the window and the rows within it.
unfoldable pub statement_page : ℕ → StatementQuery → ℤ → List EntryRow → Statement
unfolding order_rows net_of run_entries closing_of
statement_page party_id q before rows =
    let ordered = order_rows rows in
    let skipped = pos_part q.offset in
    let opening = before +ℤ net_of (take skipped ordered) in
    let page = take_if q.limit (drop skipped ordered) in
    record {
      party_id = party_id;
      opening_balance = opening;
      closing_balance = closing_of opening page;
      total_entries = row_count rows;
      entries = run_entries opening page;
    }
