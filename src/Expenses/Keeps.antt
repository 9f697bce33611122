-- ===== src/Expenses/Keeps.antt =====
-- What survives the expenses.
use kapra_os.Prelude.{ℕ, refl, String, Option, none, List}
use kapra_os.Tables.{Db, Expense}
use kapra_os.Session.Keeps.{
  Keeps, Keeps-modify, Keeps-pure, Keeps-lift, Keeps-gets, Keeps-if, Keeps-or_raise, Keeps-guard,
  ◌▹◌,
}
use kapra_os.Accounting.Posts.{post_expense}
use kapra_os.Accounting.Frame.{ReadsStock, ReadsStock-IgnoresBooks, post_expense-keeps}
use kapra_os.Accounting.Books.Sums.{IsBalanced}
use kapra_os.Accounting.Books.Posts.{post_expense-IsBalanced}
use kapra_os.Sales.Create.{get_shop}
use kapra_os.Sales.Invariants.Create.{Ignores}
use kapra_os.Sales.Invariants.Both.{IsBalanced-Survives, IsBalanced-ReadsBooks, ReadsStock-Ignores}
use kapra_os.Expenses.Defs.{
  ExpenseRequest, ExpenseUpdate, create_expense, get_expense_for_update, repost_expense,
  update_expense, delete_expense,
}

-- A property that survives what an expense writes.
pub record IgnoresExpenses (P : Db → Type 0) : Type 0 where
  pub others : Ignores P
  pub posted : (x : Expense) (description : Option String) → Keeps P (post_expense x description)
  pub table : (s : Db) (expenses : List Expense) → P s → P (record s { expenses = expenses })

module _ {P : Db → Type 0} (kept : IgnoresExpenses P) where
  pub create_expense-keeps : (r : ExpenseRequest) → Keeps P (create_expense r)
  unfolding create_expense get_shop
  create_expense-keeps r = (Keeps-gets _ ▹ λ found. Keeps-guard _ _) ▹ λ _. Keeps-lift _ ▹ λ amount.
      kept.others.uuid ▹ λ id. Keeps-gets _ ▹ λ now.
      Keeps-modify _ (λ s h. kept.table s _ h) ▹ λ _. kept.posted _ none ▹ λ _. Keeps-pure _

  get_expense-keeps : (shop_id id : ℕ) → Keeps P (get_expense_for_update shop_id id)
  unfolding get_expense_for_update
  get_expense-keeps shop_id id = Keeps-gets _ ▹ λ found. Keeps-or_raise found _

  repost_expense-keeps : (shop_id : ℕ) (x : Expense) → Keeps P (repost_expense shop_id x)
  unfolding repost_expense
  repost_expense-keeps shop_id x =
      kept.others.delete _ _ _ ▹ λ _. kept.posted x none ▹ λ _. Keeps-pure tt

  pub update_expense-keeps :
      (shop_id id : ℕ) (u : ExpenseUpdate) → Keeps P (update_expense shop_id id u)
  unfolding update_expense
  update_expense-keeps shop_id id u = get_expense-keeps shop_id id ▹ λ expense.
      Keeps-lift _ ▹ λ amount. Keeps-modify _ (λ s h. kept.table s _ h) ▹ λ _.
      Keeps-if _ _ _ (repost_expense-keeps shop_id _) (Keeps-pure tt) ▹ λ _. Keeps-pure _

  pub delete_expense-keeps : (shop_id id : ℕ) → Keeps P (delete_expense shop_id id)
  unfolding delete_expense
  delete_expense-keeps shop_id id = get_expense-keeps shop_id id ▹ λ expense.
      kept.others.delete _ _ _ ▹ λ _. Keeps-modify _ λ s h. kept.table s _ h

-- A property of the stock alone.
pub ReadsStock-IgnoresExpenses : {P : Db → Type 0} → ReadsStock P → IgnoresExpenses P
ReadsStock-IgnoresExpenses same = record {
  others = ReadsStock-Ignores same;
  posted = post_expense-keeps (ReadsStock-IgnoresBooks same);
  table = λ s expenses h. same s _ refl refl h;
}

pub IsBalanced-IgnoresExpenses : IgnoresExpenses IsBalanced
IsBalanced-IgnoresExpenses = record {
  others = IsBalanced-Survives.others;
  posted = λ x d. post_expense-IsBalanced d x;
  table = λ s expenses h. IsBalanced-ReadsBooks s _ refl refl h;
}
