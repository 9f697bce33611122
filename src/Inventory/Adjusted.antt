-- ===== src/Inventory/Adjusted.antt =====
-- A stock adjustment keeps the levels and the movements together, unless it is a negative tie.
use native.Mathlib.Nat.{one-le-pow}
use kapra_os.Prelude.{
  ℕ, ◌+◌, ◌*◌, ◌^◌, ◌-◌, ◌%◌, ◌<◌, ◌<ℤ◌, false, neg_part, pos_part, ◌∙◌, inl, inr, Bool-cases, ◌≤◌,
  ◌≡◌, refl, true, not, leb, arith, ℤ, pos, ◌+ℤ◌, ◌-ℤ◌, ◌*ℤ◌, ◌≤ℤ◌, ltb_ℤ, eqb_ℤ, -ℤ_parts,
  ltb_ℤ→le, false,
}
use kapra_os.Decimal.{Decimal, mills, add, sub, quantize, widen, round_half_up}
use kapra_os.Decimal.Rounding.{IsShifted, round-shift}
use kapra_os.Tables.{Inventory}
use kapra_os.Session.Keeps.{
  Triple, Keeps, Keeps-bind, Triple-bind, Keeps-guard-bind, Triple-guard-bind,
}
use kapra_os.Inventory.Defs.{
  Adjustment, adjustment_change, stored_quantity, is_below, adjusted_quantity, save_inventory,
  adjust_stock,
}
use kapra_os.Inventory.Reconciled.{
  IsSound, IsReconciled, IsLocked, IsPending, get_variant-keeps, lock_inventory-IsLocked,
  locked-IsSound, save_inventory-IsPending, add_movement-IsReconciled,
}

-- At most three decimal places.
abbrev IsWhole : Decimal → Type 0
IsWhole d = d.places ≤ 3

-- How many units of the last place make a thousandth.
abbrev pub unit : Decimal → ℕ
unit d = 10 ^ (d.places - 3)

-- A negative decimal that is half way between two thousandths.
pub record IsNegativeTie (d : Decimal) : Type 0 where
  pub fine : 3 < d.places
  pub negative : d.coefficient <ℤ pos 0
  pub half_way : (2 * neg_part d.coefficient + unit d) % (2 * unit d) ≡ 0

widen-zero : (c : ℤ) → widen c 0 ≡ c
unfolding widen ◌*ℤ◌
widen-zero c = ground arith

stored-mills : (n : ℤ) → stored_quantity (mills n) ≡ n
unfolding stored_quantity quantize
stored-mills n = widen-zero n

not_below : (n m : ℤ) → not (ltb_ℤ (n -ℤ m) (pos 0)) ≡ true → ltb_ℤ n m ≡ false
not_below n m h = ground (arith, -ℤ_parts n m)

not_below-mills : (n m : ℤ) → not (is_below (mills n) (mills m)) ≡ true → m ≤ℤ n
unfolding is_below sub
not_below-mills n m h = ltb_ℤ→le n m (not_below n m (rw widen-zero at h))

module _ (r : Inventory) (d : Decimal) (whole : IsWhole d) where
  fits : leb d.places 3 ≡ true
  fits = ground arith

  -- The exact sum is a whole number of thousandths: what is stored of the delta, added.
  adjusted-mills : adjusted_quantity r d ≡ mills (r.quantity +ℤ stored_quantity d)
  unfolding stored_quantity adjusted_quantity add quantize
  adjusted-mills = rw fits refl

  stored-adjusted : stored_quantity (adjusted_quantity r d) ≡ r.quantity +ℤ stored_quantity d
  stored-adjusted = rw adjusted-mills (stored-mills (r.quantity +ℤ stored_quantity d))

  reserved_within :
      not (is_below (adjusted_quantity r d) (mills r.reserved_quantity)) ≡ true
      → r.reserved_quantity ≤ℤ r.quantity +ℤ stored_quantity d
  reserved_within h =
      not_below-mills (r.quantity +ℤ stored_quantity d) r.reserved_quantity (rw adjusted-mills at h)

-- The row of an adjustment that passed the test.
record IsAdjusted (r : Inventory) (d : Decimal) : Type 0 where
  level : stored_quantity (adjusted_quantity r d) ≡ r.quantity +ℤ stored_quantity d
  within : r.reserved_quantity ≤ℤ r.quantity +ℤ stored_quantity d

nonneg : (n : ℤ) → pos 0 ≤ℤ n → n ≡ pos (pos_part n)
nonneg n h = ground arith

widen-pos : (a k : ℕ) → widen (pos a) k ≡ pos (a * 10 ^ k)
unfolding widen ◌*ℤ◌
widen-pos a k = ground arith

sub_nonneg : (n m : ℤ) → not (ltb_ℤ (n -ℤ m) (pos 0)) ≡ true → m ≤ℤ n
sub_nonneg n m h = ltb_ℤ→le n m (not_below n m h)

module _ (r : Inventory) (d : Decimal) (a b : ℕ) (quantity : r.quantity ≡ pos a)
    (reserved : r.reserved_quantity ≡ pos b) (long : leb d.places 3 ≡ false) where
  adjusted-finely :
      adjusted_quantity r d
      ≡ record { coefficient = pos (a * unit d) +ℤ d.coefficient; places = d.places }
  unfolding adjusted_quantity add
  adjusted-finely = rw (long, quantity, widen-pos a (d.places - 3)) refl

  not_below-finely :
      (c : ℤ)
      → not (is_below (record { coefficient = c; places = d.places }) (mills r.reserved_quantity))
        ≡ true
      → pos (b * unit d) ≤ℤ c
  unfolding is_below sub
  not_below-finely c h =
      let wide : leb 3 d.places ≡ true = ground arith in
      sub_nonneg c (pos (b * unit d)) (rw (wide, reserved, widen-pos b (d.places - 3)) at h)

  stored-finely :
      (c : ℤ)
      → stored_quantity (record { coefficient = c; places = d.places }) ≡ round_half_up c (unit d)
  unfolding stored_quantity quantize
  stored-finely c = rw long refl

  enough_units :
      not (is_below (adjusted_quantity r d) (mills r.reserved_quantity)) ≡ true
      → pos (b * unit d) ≤ℤ pos (a * unit d) +ℤ d.coefficient
  enough_units h = not_below-finely _ (rw adjusted-finely at h)

  finely-IsAdjusted : IsShifted (unit d) a b d.coefficient → IsAdjusted r d
  finely-IsAdjusted h =
      let own : stored_quantity d ≡ round_half_up d.coefficient (unit d) =
        stored-finely d.coefficient in
      record {
        level = rw (adjusted-finely, own, quantity) (stored-finely _ ∙ h.sum);
        within = rw (own, quantity, reserved) h.within;
      }

adjusted :
    (r : Inventory) (d : Decimal)
    → ¬ (IsNegativeTie d)
    → IsSound r
    → not (is_below (adjusted_quantity r d) (mills r.reserved_quantity)) ≡ true
    → IsAdjusted r d
adjusted r d no_tie fine h = elim (Bool-cases (leb d.places 3)) [
  | inl e ↦
      let whole : IsWhole d = ground arith in
      record { level = stored-adjusted r d whole; within = reserved_within r d whole h }
  | inr e ↦
      let q = nonneg r.quantity (omega arith) in
      let p = nonneg r.reserved_quantity fine.0 in
      let long : 3 < d.places = ground arith in
      finely-IsAdjusted r d (pos_part r.quantity) (pos_part r.reserved_quantity) q p e (
        round-shift (unit d) (one-le-pow (d.places - 3) 10 (omega arith)) (pos_part r.quantity)
          (pos_part r.reserved_quantity) d.coefficient
          (enough_units r d (pos_part r.quantity) (pos_part r.reserved_quantity) q p e h)
          λ m c half.
            no_tie (record { fine = long; negative = ground (arith, c); half_way = rw c half }))
]

save_adjustment :
    (r : Inventory) (d : Decimal)
    → ¬ (IsNegativeTie d)
    → (v : ℕ) → not (is_below (adjusted_quantity r d) (mills r.reserved_quantity)) ≡ true
    → Triple
        (IsLocked v r)
        (save_inventory (record r { quantity = stored_quantity (adjusted_quantity r d) }))
        (λ _. IsPending v (stored_quantity d))
save_adjustment r d no_tie v enough = record {
  at = λ s h.
      let fine = locked-IsSound v r h in
      let moves = adjusted r d no_tie fine enough in
      (save_inventory-IsPending v r
          (record r { quantity = stored_quantity (adjusted_quantity r d) }) (stored_quantity d) refl
          moves.level (fine.0, rw moves.level moves.within)).at
        s h;
}

pub adjust_stock-IsReconciled :
    (a : Adjustment) → ¬ (IsNegativeTie a.quantity_delta) → Keeps IsReconciled (adjust_stock a)
unfolding adjust_stock
adjust_stock-IsReconciled a no_tie =
    Keeps-guard-bind (not (eqb_ℤ a.quantity_delta.coefficient (pos 0))) _ _ λ _.
      Keeps-bind _ _ (get_variant-keeps a.shop_id a.variant_id) λ _.
        Triple-bind _ _ (lock_inventory-IsLocked a.variant_id) λ r.
          Triple-guard-bind _ _ _ λ enough.
            Triple-bind _ _ (save_adjustment r a.quantity_delta no_tie a.variant_id enough) λ _.
              add_movement-IsReconciled (adjustment_change a) (stored_quantity a.quantity_delta)
