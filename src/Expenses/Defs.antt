-- ===== src/Expenses/Defs.antt =====
-- `create_expense`, `update_expense` and `delete_expense`. Categories and payment methods arrive as
-- values of their enums, so their conversions from texts do not fail.
use kapra_os.Prelude.{
  ℕ, String, ◌==◌, if◌then◌else◌, Bool, ◌&&◌, ◌||◌, Option, none, some, List, [], ◌∷◌, ◌++◌, ℤ, pos,
  ltb_ℤ, eqb_ℤ, not,
}
use kapra_os.Decimal.{Decimal, quantize, money_scale}
use kapra_os.Tables.{Expense, ExpenseCategory, PaymentMethod, Reference}
use kapra_os.Session.{
  Error, Result, ok, err, Exec, pure, gets, or_raise, lift, modify, ◌>>=◌, ◌>>◌, new_uuid,
}
use kapra_os.Accounting.Group.{reject, delete_postings_for_reference}
use kapra_os.Accounting.Posts.{post_expense}
use kapra_os.Sales.Create.{get_shop}
use kapra_os.Sales.Edit.{Field}

-- The keyword arguments of `create_expense`.
pub record ExpenseRequest : Type 0 where
  pub shop_id : ℕ
  pub category : ExpenseCategory
  pub amount : Decimal
  pub payment_method : PaymentMethod
  pub description : Option String
  pub expense_date : Option ℕ

unfoldable pub normalise_amount : Decimal → Result ℤ
normalise_amount raw =
    if ltb_ℤ (pos 0) (quantize money_scale raw)
    then ok (quantize money_scale raw)
    else err Error.invalid_expense_amount

abbrev pub or_else {ℓ} : {A : Type ℓ} → Option A → A → A
or_else none default = default
or_else (some a) default = a

unfoldable pub create_expense : ExpenseRequest → Exec Expense
create_expense r = do
  get_shop r.shop_id
  amount ← lift (normalise_amount r.amount)
  id ← new_uuid
  now ← gets (λ s. s.now)
  let expense : Expense = record {
    id = id;
    shop_id = r.shop_id;
    category = r.category;
    amount = amount;
    payment_method = r.payment_method;
    description = r.description;
    expense_date = or_else r.expense_date now;
  }
  modify (λ s. record s { expenses = s.expenses ++ expense ∷ [] })
  post_expense expense none
  pure expense

abbrev pub find_expense : ℕ → ℕ → List Expense → Option Expense
find_expense shop_id id [] = none
find_expense shop_id id (x ∷ expenses) =
    if x.id == id && x.shop_id == shop_id then some x else find_expense shop_id id expenses

unfoldable pub get_expense_for_update : ℕ → ℕ → Exec Expense
get_expense_for_update shop_id id = do
  found ← gets (λ s. find_expense shop_id id s.expenses)
  or_raise found Error.expense_not_found

-- The keyword arguments of `update_expense`.
pub record ExpenseUpdate : Type 0 where
  pub category : Option ExpenseCategory
  pub amount : Option Decimal
  pub payment_method : Option PaymentMethod
  pub description : Field String
  pub expense_date : Option ℕ

abbrev pub category_tag : ExpenseCategory → ℕ
category_tag ExpenseCategory.rent = 0
category_tag ExpenseCategory.salary = 1
category_tag ExpenseCategory.utilities = 2
category_tag ExpenseCategory.transport = 3
category_tag ExpenseCategory.marketing = 4
category_tag ExpenseCategory.maintenance = 5
category_tag ExpenseCategory.supplies = 6
category_tag ExpenseCategory.other = 7

abbrev pub method_tag : PaymentMethod → ℕ
method_tag PaymentMethod.cash = 0
method_tag PaymentMethod.card = 1
method_tag PaymentMethod.bank = 2
method_tag PaymentMethod.jazzcash = 3
method_tag PaymentMethod.easypaisa = 4
method_tag PaymentMethod.other = 5

abbrev pub new_amount : Option Decimal → ℤ → Result ℤ
new_amount none old = ok old
new_amount (some raw) old = normalise_amount raw

abbrev pub new_description : Field String → Option String → Option String
new_description Field.leave old = old
new_description (Field.assign new) old = new

-- `repost`: the category, the amount or the payment method is another.
abbrev pub moves_money : Expense → Expense → Bool
moves_money old new =
    not (category_tag new.category == category_tag old.category)
    || (not (eqb_ℤ new.amount old.amount)
        || not (method_tag new.payment_method == method_tag old.payment_method))

abbrev pub put_expense : Expense → List Expense → List Expense
put_expense expense [] = []
put_expense expense (x ∷ expenses) =
    let others = put_expense expense expenses in
    if x.id == expense.id then expense ∷ expenses else x ∷ others

unfoldable pub repost_expense : ℕ → Expense → Exec (Unit {0})
repost_expense shop_id expense = do
  delete_postings_for_reference shop_id expense.id (some (Reference.expense ∷ []))
  post_expense expense none
  pure tt

unfoldable pub update_expense : ℕ → ℕ → ExpenseUpdate → Exec Expense
update_expense shop_id id u = do
  expense ← get_expense_for_update shop_id id
  amount ← lift (new_amount u.amount expense.amount)
  let updated : Expense = record expense {
    category = or_else u.category expense.category;
    amount = amount;
    payment_method = or_else u.payment_method expense.payment_method;
    description = new_description u.description expense.description;
    expense_date = or_else u.expense_date expense.expense_date;
  }
  modify (λ s. record s { expenses = put_expense updated s.expenses })
  if moves_money expense updated then repost_expense shop_id updated else pure tt
  pure updated

unfoldable pub delete_expense : ℕ → ℕ → Exec (Unit {0})
delete_expense shop_id id = do
  expense ← get_expense_for_update shop_id id
  delete_postings_for_reference shop_id expense.id none
  modify (λ s. record s { expenses = reject (λ x. x.id == expense.id) s.expenses })
