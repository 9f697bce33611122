-- ===== src/Inventory/Reconciled.antt =====
-- The cached level of every variant is the sum of its movements, and no stock is oversold. For an
-- adjustment see Inventory/Adjusted.
use kapra_os.Prelude.{
  ℕ, ◌==◌, ◌≡◌, refl, if◌then◌else◌, Option, none, some, arith, ℤ, pos, ◌+ℤ◌, ◌-ℤ◌, ◌≤ℤ◌, ◌<ℤ◌, ap,
  int_laws, leb_ℤ, ltb_ℤ, inl, inr, leb_ℤ→le, ltb_ℤ→lt, Option-cases, ==_refl, ==_iff,
}
use kapra_os.Tables.{Db, Inventory}
use kapra_os.Session.{pure, modify, ◌>>=◌}
use kapra_os.Session.Keeps.{
  Triple, Keeps, Keeps-bind, Triple-bind, Keeps-gets, Keeps-or_raise, Keeps-guard-bind,
  Triple-guard-bind,
}
use kapra_os.Inventory.Defs.{
  Change, find_inventory, insert_inventory, get_variant, lock_inventory, save_inventory,
  apply_receipt_cost, with_receipt_cost, add_movement, add_stock, remove_stock, available_quantity,
  receipt_average, get_weighted_average_cost,
}
use kapra_os.Inventory.Rows.{on_hand, moved, find-insert, find-put, find-variant_id, moved-append}

-- 0 ≤ reserved_quantity ≤ quantity, as the table's CHECK constraints ask.
abbrev pub IsSound : Inventory → Type 0
IsSound r = (pos 0 ≤ℤ r.reserved_quantity) × (r.reserved_quantity ≤ℤ r.quantity)

-- The levels are the sums of the movements, plus `q` for the variant `v`.
pub record IsPending (v : ℕ) (q : ℤ) (s : Db) : Type 0 where
  pub counts :
      (w : ℕ)
      → on_hand w s.inventory ≡ (if v == w then moved w s.movements +ℤ q else moved w s.movements)
  pub sound : (w : ℕ) (r : Inventory) → find_inventory w s.inventory ≡ some r → IsSound r

pub record IsReconciled (s : Db) : Type 0 where
  pub counts : (w : ℕ) → on_hand w s.inventory ≡ moved w s.movements
  pub sound : (w : ℕ) (r : Inventory) → find_inventory w s.inventory ≡ some r → IsSound r

-- A reconciled database in which the transaction has read the row `r` of the variant `v`.
pub record IsLocked (v : ℕ) (r : Inventory) (s : Db) : Type 0 where
  pub books : IsReconciled s
  pub row : find_inventory v s.inventory ≡ some r

insert-IsReconciled :
    (v : ℕ) {s : Db}
    → IsReconciled s
    → IsReconciled (record s { inventory = insert_inventory v s.inventory })
insert-IsReconciled v {s} h = record {
  counts = λ w. rw find-insert (ground (arith, h.counts w));
  sound = λ w r p. ground (arith, h.sound w r, find-insert v w s.inventory);
}

pub lock_inventory-IsLocked : (v : ℕ) → Triple IsReconciled (lock_inventory v) (IsLocked v)
unfolding lock_inventory ◌>>=◌
lock_inventory-IsLocked v = record {
  at = λ s h.
      rw (find-insert, ==_refl)
        (record { books = insert-IsReconciled v h; row = rw (find-insert, ==_refl) refl });
}

-- The write of a row with another quantity, before its movement is recorded.
pub save_inventory-IsPending :
    (v : ℕ) (r r' : Inventory) (q : ℤ)
    → r'.variant_id ≡ r.variant_id
    → r'.quantity ≡ r.quantity +ℤ q
    → IsSound r'
    → Triple (IsLocked v r) (save_inventory r') (λ _. IsPending v q)
unfolding save_inventory modify
save_inventory-IsPending v r r' q same moves fine = record {
  at = λ s h.
      let own : r.variant_id ≡ v = find-variant_id v s.inventory r h.row in
      record {
        counts = λ w.
            rw find-put (ground (arith, h.books.counts w, h.row, own, same, moves, ==_iff v w));
        sound = λ w x p. ground (arith, h.books.sound w x, find-put r' w s.inventory, p);
      };
}

pub add_movement-IsReconciled :
    (c : Change) (q : ℤ) → Triple (IsPending c.variant_id q) (add_movement c q) (λ _. IsReconciled)
unfolding add_movement ◌>>=◌
add_movement-IsReconciled c q = record {
  at = λ s h. record { counts = λ w. rw moved-append (h.counts w); sound = h.sound };
}

pub get_variant-keeps :
    {P : Db → Type 0} (shop_id variant_id : ℕ) → Keeps P (get_variant shop_id variant_id)
unfolding get_variant
get_variant-keeps shop_id variant_id = Keeps-bind _ _ (Keeps-gets _) λ found. Keeps-or_raise found _

-- A receipt's cost changes the average only.
record IsRevalued (v : ℕ) (r r' : Inventory) (s : Db) : Type 0 where
  locked : IsLocked v r s
  same_id : r'.variant_id ≡ r.variant_id
  same_quantity : r'.quantity ≡ r.quantity
  same_reserved : r'.reserved_quantity ≡ r.reserved_quantity

with_receipt_cost-IsRevalued :
    (v : ℕ) (r : Inventory) (q : ℤ) (unit_cost : Option ℤ)
    → Triple (IsLocked v r) (with_receipt_cost r q unit_cost) (IsRevalued v r)
unfolding with_receipt_cost apply_receipt_cost ◌>>=◌
with_receipt_cost-IsRevalued v r q none = record {
  at = λ s h. record { locked = h; same_id = refl; same_quantity = refl; same_reserved = refl };
}
with_receipt_cost-IsRevalued v r q (some c) =
    elim (Option-cases (receipt_average r.quantity r.weighted_average_cost q c)) [
      | inl e ↦ record { at = λ s h. rw e tt }
      | inr (a, e) ↦ record {
        at = λ s h.
            rw e
              (record { locked = h; same_id = refl; same_quantity = refl; same_reserved = refl });
      }
    ]

-- A locked row is sound.
pub locked-IsSound : (v : ℕ) (r : Inventory) {s : Db} → IsLocked v r s → IsSound r
locked-IsSound v r h = h.books.sound v r h.row

save_receipt :
    (v : ℕ) (r r' : Inventory) (q : ℤ)
    → pos 0 <ℤ q
    → Triple
        (IsRevalued v r r')
        (save_inventory (record r' { quantity = r'.quantity +ℤ q }))
        (λ _. IsPending v q)
save_receipt v r r' q positive = record {
  at = λ s h.
      let fine = locked-IsSound v r h.locked in
      (save_inventory-IsPending v r (record r' { quantity = r'.quantity +ℤ q }) q h.same_id
          (ap (λ a. a +ℤ q) h.same_quantity)
          (rw (h.same_quantity, h.same_reserved) (omega int_laws))).at
        s h.locked;
}

pub add_stock-IsReconciled : (c : Change) → Keeps IsReconciled (add_stock c)
unfolding add_stock
add_stock-IsReconciled c = Keeps-guard-bind (ltb_ℤ (pos 0) c.quantity) _ _ λ positive.
    Keeps-bind _ _ (get_variant-keeps c.shop_id c.variant_id) λ _.
      Triple-bind _ _ (lock_inventory-IsLocked c.variant_id) λ r.
        Triple-bind _ _ (with_receipt_cost-IsRevalued c.variant_id r c.quantity c.unit_cost) λ r'.
          Triple-bind _ _
            (save_receipt c.variant_id r r' c.quantity (ltb_ℤ→lt (pos 0) c.quantity positive))
            λ _. add_movement-IsReconciled c c.quantity

module _ (v : ℕ) (r : Inventory) (q : ℤ) where
  save_removal :
      pos 0 <ℤ q
      → q ≤ℤ available_quantity r
      → Triple
          (IsLocked v r)
          (save_inventory (record r { quantity = r.quantity -ℤ q }))
          (λ _. IsPending v (pos 0 -ℤ q))
  save_removal positive enough = record {
    at = λ s h.
        let fine = locked-IsSound v r h in
        (save_inventory-IsPending v r (record r { quantity = r.quantity -ℤ q }) (pos 0 -ℤ q) refl
            (omega int_laws) (omega int_laws)).at
          s h;
  }

pub remove_stock-IsReconciled : (c : Change) → Keeps IsReconciled (remove_stock c)
unfolding remove_stock
remove_stock-IsReconciled c = Keeps-guard-bind (ltb_ℤ (pos 0) c.quantity) _ _ λ positive.
    Keeps-bind _ _ (get_variant-keeps c.shop_id c.variant_id) λ _.
      Triple-bind _ _ (lock_inventory-IsLocked c.variant_id) λ r.
        Triple-guard-bind (leb_ℤ c.quantity (available_quantity r)) _ _ λ enough.
          Triple-bind _ _
            (save_removal c.variant_id r c.quantity (ltb_ℤ→lt (pos 0) c.quantity positive)
              (leb_ℤ→le c.quantity (available_quantity r) enough))
            λ _. add_movement-IsReconciled c (pos 0 -ℤ c.quantity)

pub get_weighted_average_cost-IsReconciled :
    (shop_id variant_id : ℕ) → Keeps IsReconciled (get_weighted_average_cost shop_id variant_id)
unfolding get_weighted_average_cost pure
get_weighted_average_cost-IsReconciled shop_id variant_id =
    Keeps-bind _ _ (get_variant-keeps shop_id variant_id)
      λ _. Triple-bind _ _ (lock_inventory-IsLocked variant_id) λ r. record { at = λ s h. h.books }
