-- ===== src/History/Reached.antt =====
-- The books and the stock in every database that a history of commits reaches.
use kapra_os.Prelude.{◌≡◌, refl, sym}
use kapra_os.Tables.{Db}
use kapra_os.Session.{Exec, ok}
use kapra_os.Session.Keeps.{Keeps, After-ok}
use kapra_os.Inventory.Frame.{add_stock-keeps, remove_stock-keeps, adjust_stock-keeps}
use kapra_os.Accounting.Books.Sums.{IsBalanced}
use kapra_os.Sales.Invariants.Create.{create_sale-keeps}
use kapra_os.Sales.Invariants.Edit.{update_sale-keeps, delete_sale-keeps}
use kapra_os.Sales.Invariants.Both.{
  IsBalanced-ReadsBooks, IsBalanced-IgnoresStock, IsBalanced-Survives,
}
use kapra_os.Purchases.Keeps.{
  create_purchase-keeps, delete_purchase-keeps, IsBalanced-IgnoresPurchases,
}
use kapra_os.Purchases.EditKeeps.{update_purchase-keeps}
use kapra_os.Expenses.Keeps.{
  create_expense-keeps, update_expense-keeps, delete_expense-keeps, IsBalanced-IgnoresExpenses,
}
use kapra_os.Documents.{IsBalanced-IgnoresDocuments}
use kapra_os.Returns.Keeps.{create_sale_return-keeps, create_purchase_return-keeps}
use kapra_os.Payments.Keeps.{
  record_customer_payment-keeps, record_supplier_payment-keeps, void_payment-keeps,
}
use kapra_os.Openings.Keeps.{post_opening_inventory-keeps}
use kapra_os.History.Steps.{
  opening_posted, customer_paid, supplier_paid, payment_voided, sale_returned, purchase_returned,
  expense_created, expense_updated, expense_deleted, purchase_created, purchase_updated,
  purchase_deleted, Step, sale_created, sale_updated, sale_deleted, stock_added, stock_removed,
  stock_adjusted, elsewhere, Reach, here, next, IsFresh,
}

-- A committed run of a function that keeps `P`.
committed :
    {A : Type 0} {P : Db → Type 0} {m : Exec A} (a : A) (s t : Db)
    → Keeps P m
    → m s ≡ ok (a, t)
    → P s
    → P t
committed {P} a s t k e h = After-ok (λ _. P) e (k.at s h)

Step-IsBalanced : {s t : Db} → Step s t → IsBalanced s → IsBalanced t
Step-IsBalanced {s} {t} (sale_created r {x} e) h =
    committed x s t (create_sale-keeps IsBalanced-Survives r) e h
Step-IsBalanced {s} {t} (sale_updated shop_id sale_id u {x} e) h =
    committed x s t (update_sale-keeps IsBalanced-Survives shop_id sale_id u) e h
Step-IsBalanced {s} {t} (sale_deleted shop_id sale_id e) h =
    committed tt s t (delete_sale-keeps IsBalanced-Survives shop_id sale_id) e h
Step-IsBalanced {s} {t} (purchase_created r {x} e) h =
    committed x s t (create_purchase-keeps IsBalanced-IgnoresPurchases IsBalanced-Survives r) e h
Step-IsBalanced {s} {t} (purchase_updated shop_id purchase_id u {x} e) h =
    committed x s t
      (update_purchase-keeps IsBalanced-IgnoresPurchases IsBalanced-Survives shop_id purchase_id u)
      e h
Step-IsBalanced {s} {t} (purchase_deleted shop_id purchase_id e) h =
    committed tt s t
      (delete_purchase-keeps IsBalanced-IgnoresPurchases IsBalanced-Survives shop_id purchase_id) e
      h
Step-IsBalanced {s} {t} (expense_created r {x} e) h =
    committed x s t (create_expense-keeps IsBalanced-IgnoresExpenses r) e h
Step-IsBalanced {s} {t} (expense_updated shop_id id u {x} e) h =
    committed x s t (update_expense-keeps IsBalanced-IgnoresExpenses shop_id id u) e h
Step-IsBalanced {s} {t} (expense_deleted shop_id id e) h =
    committed tt s t (delete_expense-keeps IsBalanced-IgnoresExpenses shop_id id) e h
Step-IsBalanced {s} {t} (sale_returned r {x} e) h =
    committed x s t (create_sale_return-keeps IsBalanced-IgnoresDocuments IsBalanced-Survives r) e h
Step-IsBalanced {s} {t} (purchase_returned r {x} e) h =
    committed x s t (create_purchase_return-keeps IsBalanced-IgnoresDocuments IsBalanced-Survives r)
      e h
Step-IsBalanced {s} {t} (customer_paid r {p} e) h =
    committed p s t (record_customer_payment-keeps IsBalanced-IgnoresDocuments r) e h
Step-IsBalanced {s} {t} (supplier_paid r {p} e) h =
    committed p s t (record_supplier_payment-keeps IsBalanced-IgnoresDocuments r) e h
Step-IsBalanced {s} {t} (payment_voided shop_id id e) h =
    committed tt s t (void_payment-keeps IsBalanced-IgnoresDocuments shop_id id) e h
Step-IsBalanced {s} {t} (opening_posted r {b} e) h =
    committed b s t (post_opening_inventory-keeps IsBalanced-IgnoresDocuments IsBalanced-Survives r)
      e h
Step-IsBalanced {s} {t} (stock_added c {m} e) h =
    committed m s t (add_stock-keeps IsBalanced-IgnoresStock c) e h
Step-IsBalanced {s} {t} (stock_removed c {m} e) h =
    committed m s t (remove_stock-keeps IsBalanced-IgnoresStock c) e h
Step-IsBalanced {s} {t} (stock_adjusted c {m} e) h =
    committed m s t (adjust_stock-keeps IsBalanced-IgnoresStock c) e h
Step-IsBalanced {s} {t} (elsewhere i m a l) h = IsBalanced-ReadsBooks s t (sym l) (sym a) h

fresh-IsBalanced : {s : Db} → IsFresh s → IsBalanced s
fresh-IsBalanced f = record { groups = λ p. rw f.no_ledger refl }

-- In every database that a history of commits reaches from a fresh one, the ledger is balanced:
-- over any set of posting groups (one group, one shop, or all) debits and credits have one sum.
pub Reach-IsBalanced : {s t : Db} → IsFresh s → Reach s t → IsBalanced t
Reach-IsBalanced f here = fresh-IsBalanced f
Reach-IsBalanced f (next r st) = Step-IsBalanced st (Reach-IsBalanced f r)
