-- ===== src/Sales/Invariants/Both.antt =====
-- The books stay balanced and the stock reconciled under every operation on a sale.
use kapra_os.Prelude.{refl}
use kapra_os.Tables.{Db}
use kapra_os.Inventory.Frame.{
  ReadsBooks, IgnoresStock, ReadsBooks-IgnoresStock, add_stock-keeps, remove_stock-keeps,
  get_weighted_average_cost-keeps,
}
use kapra_os.Inventory.Reconciled.{
  IsReconciled, add_stock-IsReconciled, remove_stock-IsReconciled,
  get_weighted_average_cost-IsReconciled,
}
use kapra_os.Accounting.Books.Sums.{IsBalanced}
use kapra_os.Accounting.Books.Writers.{
  new_uuid-IsBalanced, delete_postings_for_reference-IsBalanced,
}
use kapra_os.Accounting.Books.Posts.{post_sale-IsBalanced, post_cogs-IsBalanced}
use kapra_os.Accounting.Frame.{
  ReadsStock, ReadsStock-IgnoresBooks, new_uuid-keeps, delete_postings-keeps, post_sale-keeps,
  post_cogs-keeps,
}
use kapra_os.Sales.Invariants.Create.{Ignores, Survives}

pub IsBalanced-ReadsBooks : ReadsBooks IsBalanced
IsBalanced-ReadsBooks s t e f h = record { groups = λ p. rw (← e) (h.groups p) }

pub IsBalanced-IgnoresStock : IgnoresStock IsBalanced
IsBalanced-IgnoresStock = ReadsBooks-IgnoresStock IsBalanced-ReadsBooks

pub IsReconciled-ReadsStock : ReadsStock IsReconciled
IsReconciled-ReadsStock s t e f h = record {
  counts = λ w. rw (← e, ← f) (h.counts w);
  sound = λ w r p. h.sound w r (rw e p);
}

pub IsBalanced-Survives : Survives IsBalanced
IsBalanced-Survives = record {
  others = record {
    uuid = new_uuid-IsBalanced;
    delete = delete_postings_for_reference-IsBalanced;
    sale = λ x d. post_sale-IsBalanced d x;
    cogs = λ x d. post_cogs-IsBalanced d x;
    rows = λ s sales payments h. IsBalanced-ReadsBooks s _ refl refl h;
  };
  add = add_stock-keeps IsBalanced-IgnoresStock;
  remove = remove_stock-keeps IsBalanced-IgnoresStock;
  cost = get_weighted_average_cost-keeps IsBalanced-IgnoresStock;
}

-- A property of the stock alone.
pub ReadsStock-Ignores : {P : Db → Type 0} → ReadsStock P → Ignores P
ReadsStock-Ignores same = record {
  uuid = new_uuid-keeps (ReadsStock-IgnoresBooks same);
  delete = delete_postings-keeps (ReadsStock-IgnoresBooks same);
  sale = post_sale-keeps (ReadsStock-IgnoresBooks same);
  cogs = post_cogs-keeps (ReadsStock-IgnoresBooks same);
  rows = λ s sales payments h. same s _ refl refl h;
}

pub IsReconciled-Survives : Survives IsReconciled
IsReconciled-Survives = record {
  others = ReadsStock-Ignores IsReconciled-ReadsStock;
  add = add_stock-IsReconciled;
  remove = remove_stock-IsReconciled;
  cost = get_weighted_average_cost-IsReconciled;
}
