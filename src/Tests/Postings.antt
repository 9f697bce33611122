-- ===== src/Tests/Postings.antt =====
-- Groups of lines posted to an empty ledger, and the lines of a sale and of a return.
use kapra_os.Prelude.{◌≡◌, ◌≢◌, refl, none, List, [], ◌∷◌, pos, arith, ◌+ℤ◌, inr}
use kapra_os.Tables.{Db, LedgerEntry, Reference}
use kapra_os.Session.{ok, err, Error}
use kapra_os.Accounting.Group.{Line, debit_line, credit_line, check_lines, post_group}
use kapra_os.Accounting.Posts.{sale_lines, sale_return_lines, ReturnAccounts}
use kapra_os.Accounting.Books.Once.{post_group-twice, post_group-unbalanced}
use kapra_os.Accounting.Books.Documents.{check-sale_lines, check-sale_return_lines}
use kapra_os.Accounting.Books.Sums.{line_debits, line_credits}
use kapra_os.Tests.Evaluation.{evaluation}
use kapra_os.Tests.Shop.{shop, state_of, value_of}

abbrev lines : List Line
lines = credit_line 12 (pos 900) none ∷ []

abbrev paid_line : Line
paid_line = debit_line 10 (pos 900) none

abbrev posted : Db
posted = state_of (post_group 1 Reference.sale 4 (paid_line ∷ lines) shop) shop

abbrev entries : List LedgerEntry
entries = value_of (post_group 1 Reference.sale 4 (paid_line ∷ lines) shop) []

lines-IsPosted : post_group 1 Reference.sale 4 (paid_line ∷ lines) shop ≡ ok (entries, posted)
unfolding evaluation
lines-IsPosted = refl

post_group-twice_example : post_group 1 Reference.sale 4 lines posted ≡ ok ([], posted)
post_group-twice_example =
    post_group-twice 1 Reference.sale 4 paid_line lines lines shop posted lines-IsPosted

differ : line_debits lines ≢ line_credits lines
unfolding evaluation line_debits line_credits
differ = ground arith

post_group-unbalanced_example :
    post_group 1 Reference.sale 4 lines shop ≡ err Error.unbalanced_posting
post_group-unbalanced_example =
    post_group-unbalanced 1 Reference.sale 4 lines shop refl (inr (ground arith, refl), tt) differ

-- A sale of 18.00, of which 12.00 came by card into account 15 and 3.00 are not recorded.
check-sale_lines_example :
    check_lines
      (pos 0)
      (pos 0)
      (sale_lines 10 11 12 (pos 1800) (pos 1500) ((15, pos 1200) ∷ []) none)
    ≡ ok (pos 1800, pos 1800)
unfolding evaluation
check-sale_lines_example =
    check-sale_lines 10 11 12 (pos 1800) (pos 1500) ((15, pos 1200) ∷ []) none (ground arith)
      (ground arith, tt) (ground arith) (ground arith)

abbrev accounts : ReturnAccounts
accounts = record { cash = 10; bank = 15; receivable = 11; revenue = 12; cogs = 14; inventory = 13 }

-- A return of 9.00, 4.00 of it against the balance, of goods that cost 3.50.
check-sale_return_lines_example :
    check_lines
      (pos 0)
      (pos 0)
      (sale_return_lines accounts (pos 900) (pos 400) (pos 500) (pos 350) ((15, pos 200) ∷ []) none)
    ≡ ok (pos 900 +ℤ pos 350, pos 900 +ℤ pos 350)
unfolding evaluation
check-sale_return_lines_example =
    check-sale_return_lines accounts (pos 900) (pos 400) (pos 500) (pos 350) ((15, pos 200) ∷ [])
      none (ground arith) (ground arith) (ground arith) (ground arith) refl
