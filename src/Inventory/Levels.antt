-- ===== src/Inventory/Levels.antt =====
-- By how much each operation of the inventory service changes the stored quantity of a variant.
use kapra_os.Prelude.{
  ℕ, ◌==◌, ◌≡◌, refl, if◌then◌else◌, Option, none, some, arith, ℤ, pos, ◌+ℤ◌, ◌-ℤ◌, int_laws, inl,
  inr, Option-cases, ==_refl, ==_iff, ap,
}
use kapra_os.Tables.{Db, Inventory}
use kapra_os.Session.{pure, modify, ◌>>=◌}
use kapra_os.Session.Keeps.{Triple, Keeps, Keeps-bind, Triple-bind, Triple-guard-bind}
use kapra_os.Inventory.Defs.{
  Change, find_inventory, put_inventory, lock_inventory, save_inventory, apply_receipt_cost,
  with_receipt_cost, add_movement, add_stock, remove_stock, receipt_average,
  get_weighted_average_cost,
}
use kapra_os.Inventory.Rows.{on_hand, find-insert, find-put, find-variant_id}
use kapra_os.Inventory.Reconciled.{get_variant-keeps}

-- The stored quantity of the variant `w` is `n`.
abbrev pub HasLevel : ℕ → ℤ → Db → Type 0
HasLevel w n s = on_hand w s.inventory ≡ n

-- The level `n` of `w` after the level of `v` has changed by `q`.
abbrev pub changed : ℕ → ℤ → ℕ → ℤ → ℤ
changed v q w n = if v == w then n +ℤ q else n

module _ (w : ℕ) (n : ℤ) where
  record HasRow (v : ℕ) (r : Inventory) (s : Db) : Type 0 where
    has_level : HasLevel w n s
    row : find_inventory v s.inventory ≡ some r

  record HasCost (v : ℕ) (r r' : Inventory) (s : Db) : Type 0 where
    has_row : HasRow v r s
    same_id : r'.variant_id ≡ r.variant_id
    same_quantity : r'.quantity ≡ r.quantity

  lock_inventory-HasRow : (v : ℕ) → Triple (HasLevel w n) (lock_inventory v) (HasRow v)
  unfolding lock_inventory ◌>>=◌
  lock_inventory-HasRow v = record {
    at = λ s h.
        rw (find-insert, ==_refl)
          (record {
            has_level = rw find-insert (ground (arith, h));
            row = rw (find-insert, ==_refl) refl;
          });
  }

  with_receipt_cost-HasCost :
      (v : ℕ) (r : Inventory) (q : ℤ) (unit_cost : Option ℤ)
      → Triple (HasRow v r) (with_receipt_cost r q unit_cost) (HasCost v r)
  unfolding with_receipt_cost apply_receipt_cost ◌>>=◌
  with_receipt_cost-HasCost v r q none = record {
    at = λ s h. record { has_row = h; same_id = refl; same_quantity = refl };
  }
  with_receipt_cost-HasCost v r q (some c) =
      elim (Option-cases (receipt_average r.quantity r.weighted_average_cost q c)) [
        | inl e ↦ record { at = λ s h. rw e tt }
        | inr (a, e) ↦ record {
          at = λ s h. rw e (record { has_row = h; same_id = refl; same_quantity = refl });
        }
      ]

  save_inventory-HasLevel :
      (v : ℕ) (r r' : Inventory) (q : ℤ) {s : Db}
      → HasRow v r s
      → r'.variant_id ≡ r.variant_id
      → r'.quantity ≡ r.quantity +ℤ q
      → on_hand w (put_inventory r' s.inventory) ≡ changed v q w n
  save_inventory-HasLevel v r r' q {s} h same moves =
      let own : r.variant_id ≡ v = find-variant_id v s.inventory r h.row in
      rw find-put (ground (arith, h.has_level, h.row, own, same, moves, ==_iff v w))

  add_movement-HasLevel : (c : Change) (q : ℤ) → Keeps (HasLevel w n) (add_movement c q)
  unfolding add_movement ◌>>=◌
  add_movement-HasLevel c q = record { at = λ s h. h }

  pub get_weighted_average_cost-HasLevel :
      (shop_id v : ℕ) → Keeps (HasLevel w n) (get_weighted_average_cost shop_id v)
  unfolding get_weighted_average_cost pure
  get_weighted_average_cost-HasLevel shop_id v =
      Keeps-bind _ _ (get_variant-keeps shop_id v)
        λ _. Triple-bind _ _ (lock_inventory-HasRow v) λ r. record { at = λ s h. h.has_level }

-- A receipt adds its quantity to the level of its variant, and changes no other level.
pub add_stock-HasLevel :
    (w : ℕ) (n : ℤ) (c : Change)
    → Triple (HasLevel w n) (add_stock c) (λ _. HasLevel w (changed c.variant_id c.quantity w n))
unfolding add_stock save_inventory modify
add_stock-HasLevel w n c = Triple-guard-bind _ _ _ λ _.
    Triple-bind _ _ (get_variant-keeps c.shop_id c.variant_id) λ _.
      Triple-bind _ _ (lock_inventory-HasRow w n c.variant_id) λ r.
        Triple-bind _ _ (with_receipt_cost-HasCost w n c.variant_id r c.quantity c.unit_cost) λ r'.
          Triple-bind _ _
            (record {
              at = λ s h.
                  save_inventory-HasLevel w n c.variant_id r
                    (record r' { quantity = r'.quantity +ℤ c.quantity }) c.quantity h.has_row
                    h.same_id (ap (λ a. a +ℤ c.quantity) h.same_quantity);
            })
            λ _. add_movement-HasLevel w _ c c.quantity

-- An issue takes its quantity from the level of its variant, and changes no other level.
pub remove_stock-HasLevel :
    (w : ℕ) (n : ℤ) (c : Change)
    → Triple
        (HasLevel w n)
        (remove_stock c)
        (λ _. HasLevel w (changed c.variant_id (pos 0 -ℤ c.quantity) w n))
unfolding remove_stock save_inventory modify
remove_stock-HasLevel w n c = Triple-guard-bind _ _ _ λ _.
    Triple-bind _ _ (get_variant-keeps c.shop_id c.variant_id) λ _.
      Triple-bind _ _ (lock_inventory-HasRow w n c.variant_id) λ r. Triple-guard-bind _ _ _ λ _.
        Triple-bind _ _
          (record {
            at = λ s h.
                save_inventory-HasLevel w n c.variant_id r
                  (record r { quantity = r.quantity -ℤ c.quantity }) (pos 0 -ℤ c.quantity) h refl
                  (omega int_laws);
          })
          λ _. add_movement-HasLevel w _ c _
