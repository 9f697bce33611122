-- ===== src/Khata/Order.antt =====
-- The order of a statement's rows changes no sum, and a page of it is a slice of the whole.
use kapra_os.Prelude.{
  ℕ, suc, zero, ltb, not, ◌&&◌, if◌then◌else◌, Bool, true, false, ◌≡◌, refl, ap, ◌∙◌, Option, none,
  some, List, [], ◌∷◌, ◌++◌, ℤ, pos, pos_part, ◌+ℤ◌, ◌-ℤ◌, int_laws, Bool-cases, inl, inr,
}
use kapra_os.Khata.Sums.{sum_where, sum_where-same, sum_where-split}
use kapra_os.Khata.Entries.{
  EntryRow, in_range, in_order, insert_row, order_rows, rows_where, take, drop, take_if, net_of,
  StatementQuery, statement_page, run_entries, closing_of,
}

insert_row-net :
    (x : EntryRow) (rows : List EntryRow) → net_of (insert_row x rows) ≡ net_of (x ∷ rows)
unfolding insert_row net_of
insert_row-net x [] = refl
insert_row-net x (y ∷ rows) = place (in_order x y) (insert_row-net x rows)
  where
    place :
        (b : Bool)
        → net_of (insert_row x rows) ≡ net_of (x ∷ rows)
        → net_of (if b then x ∷ y ∷ rows else y ∷ insert_row x rows) ≡ net_of (x ∷ y ∷ rows)
    place true h = refl
    place false h = rw h (omega int_laws)

pub order_rows-net : (rows : List EntryRow) → net_of (order_rows rows) ≡ net_of rows
unfolding order_rows net_of
order_rows-net [] = refl
order_rows-net (x ∷ rows) =
    insert_row-net x (order_rows rows) ∙ ap (λ n. x.debit -ℤ x.credit +ℤ n) (order_rows-net rows)

-- The loop ends at the balance that it started from with the net of its rows.
pub closing_of-net :
    (balance : ℤ) (rows : List EntryRow) → closing_of balance rows ≡ balance +ℤ net_of rows
unfolding closing_of net_of
closing_of-net balance [] = omega int_laws
closing_of-net balance (x ∷ rows) =
    closing_of-net (balance +ℤ x.debit -ℤ x.credit) rows ∙ omega int_laws

pub take-drop-net :
    (n : ℕ) (rows : List EntryRow) → net_of (take n rows) +ℤ net_of (drop n rows) ≡ net_of rows
unfolding net_of
take-drop-net zero rows = omega int_laws
take-drop-net (suc n) [] = omega int_laws
take-drop-net (suc n) (x ∷ rows) = rw (← take-drop-net n rows) (omega int_laws)

net_of-append : (a b : List EntryRow) → net_of (a ++ b) ≡ net_of a +ℤ net_of b
unfolding net_of
net_of-append [] b = omega int_laws
net_of-append (x ∷ a) b = rw (net_of-append a b) (omega int_laws)

pub net_of-three : (a b c : List EntryRow) → net_of (a ++ b ++ c) ≡ net_of a +ℤ net_of b +ℤ net_of c
net_of-three a b c = net_of-append (a ++ b) c ∙ rw (net_of-append a b) refl

-- The running balances after `n` rows are those of the loop from the balance that they leave.
pub drop-run_entries :
    (n : ℕ) (balance : ℤ) (rows : List EntryRow)
    → run_entries (balance +ℤ net_of (take n rows)) (drop n rows)
      ≡ drop n (run_entries balance rows)
unfolding run_entries net_of
drop-run_entries zero balance rows = ap (λ b. run_entries b rows) (omega int_laws)
drop-run_entries (suc n) balance [] = refl
drop-run_entries (suc n) balance (x ∷ rows) =
    ap (λ b. run_entries b (drop n rows)) (omega int_laws)
    ∙ drop-run_entries n (balance +ℤ x.debit -ℤ x.credit) rows

pub take-run_entries :
    (n : ℕ) (balance : ℤ) (rows : List EntryRow)
    → run_entries balance (take n rows) ≡ take n (run_entries balance rows)
unfolding run_entries
take-run_entries zero balance rows = refl
take-run_entries (suc n) balance [] = refl
take-run_entries (suc n) balance (x ∷ rows) =
    rw (take-run_entries n (balance +ℤ x.debit -ℤ x.credit) rows) refl

take_if-run_entries :
    (limit : Option ℤ) (balance : ℤ) (rows : List EntryRow)
    → run_entries balance (take_if limit rows) ≡ take_if limit (run_entries balance rows)
take_if-run_entries none balance rows = refl
take_if-run_entries (some n) balance rows = take-run_entries (pos_part n) balance rows

module _ {A : Type 0} (q : A → Bool) (row : A → EntryRow) (value : A → ℤ) where
  -- The net of rows that debit a value, and of rows that credit one.
  pub rows_where-debits :
      ((x : A) → ((row x).debit ≡ value x) × ((row x).credit ≡ pos 0))
      → (l : List A) → net_of (rows_where q row l) ≡ sum_where q value l
  unfolding rows_where net_of sum_where
  rows_where-debits h [] = refl
  rows_where-debits h (x ∷ l) = elim (Bool-cases (q x)) [
    | inl e ↦ rw (e, (h x).0, (h x).1, rows_where-debits h l) (omega int_laws)
    | inr e ↦ rw (e, rows_where-debits h l) refl
  ]

  pub rows_where-credits :
      ((x : A) → ((row x).debit ≡ pos 0) × ((row x).credit ≡ value x))
      → (l : List A) → net_of (rows_where q row l) ≡ pos 0 -ℤ sum_where q value l
  unfolding rows_where net_of sum_where
  rows_where-credits h [] = omega int_laws
  rows_where-credits h (x ∷ l) = elim (Bool-cases (q x)) [
    | inl e ↦ rw (e, (h x).0, (h x).1, rows_where-credits h l) (omega int_laws)
    | inr e ↦ rw (e, rows_where-credits h l) refl
  ]

-- The entries of a page are a slice of the entries of the whole window.
pub statement_page-entries :
    (id : ℕ) (q : StatementQuery) (before : ℤ) (rows : List EntryRow)
    → (statement_page id q before rows).entries
      ≡ take_if q.limit (drop (pos_part q.offset) (run_entries before (order_rows rows)))
unfolding statement_page
statement_page-entries id q before rows =
    take_if-run_entries q.limit _ _
    ∙ ap (take_if q.limit) (drop-run_entries (pos_part q.offset) before (order_rows rows))

-- A page that runs to the end of the window closes at the balance before it with its rows' net.
pub statement_page-closing :
    (id : ℕ) (q : StatementQuery) (before : ℤ) (rows : List EntryRow)
    → q.limit ≡ none
    → (statement_page id q before rows).closing_balance ≡ before +ℤ net_of rows
unfolding statement_page
statement_page-closing id q before rows whole =
    let ordered = order_rows rows in
    let n = pos_part q.offset in
    rw whole (
      closing_of-net _ (drop n ordered)
      ∙ rw (← order_rows-net rows, ← take-drop-net n ordered) (omega int_laws))

&&_true : (b : Bool) → (b && true) ≡ b
&&_true true = refl
&&_true false = refl

module _ {A : Type 0} (q : A → Bool) (time : A → ℕ) (value : A → ℤ) (l : List A) where
  -- No dates at all, and the rows before a date with those from it on.
  pub sum_where-undated :
      sum_where (λ x. q x && in_range none none (time x)) value l ≡ sum_where q value l
  sum_where-undated = sum_where-same _ q value l λ x. &&_true (q x)

  pub sum_where-dated :
      (start : ℕ)
      → sum_where (λ x. q x && ltb (time x) start) value l
          +ℤ sum_where (λ x. q x && in_range (some start) none (time x)) value l
        ≡ sum_where q value l
  sum_where-dated start =
      ap (λ n. sum_where (λ x. q x && ltb (time x) start) value l +ℤ n)
        (sum_where-same (λ x. q x && in_range (some start) none (time x))
          (λ x. q x && not (ltb (time x) start)) value l
          (λ x. ap (λ b. q x && b) (&&_true (not (ltb (time x) start)))))
      ∙ sum_where-split q (λ x. ltb (time x) start) value l
