-- ===== src/Decimal/Rounding.antt =====
-- Rounding to the nearest integer, a tie going away from zero.
use native.Mathlib.Nat.{
  le-div_iff_mul-le, div-lt_iff_lt-mul, add-mul-div_left, div-eq_of_lt-le, div-add-mod, mod-lt,
}
use kapra_os.Prelude.{
  ℕ, suc, ◌+◌, ◌-◌, ◌*◌, ◌/◌, ◌%◌, ◌≤◌, ◌<◌, ◌≡◌, ◌≢◌, refl, ◌∙◌, ap, sym, arith, +ℤ_parts, ℤ, pos,
  negsuc, ◌+ℤ◌, ◌≤ℤ◌, zero,
}
use kapra_os.Decimal.Defs.{div_half_up, round_half_up, neg}

-- The multiple `a` of the unit `d` and `c`, where the sum is at least the multiple `b` of the unit.
pub record IsShifted (d a b : ℕ) (c : ℤ) : Type 0 where
  pub sum : round_half_up (pos (a * d) +ℤ c) d ≡ pos a +ℤ round_half_up c d
  pub within : pos b ≤ℤ pos a +ℤ round_half_up c d

module _ (d : ℕ) (positive : 0 < d) where
  -- A multiple of the unit is added after the rounding.
  pub div_half_up-add : (a n : ℕ) → div_half_up (a * d + n) d ≡ a + div_half_up n d
  div_half_up-add a n =
      let e : 2 * (a * d + n) + d ≡ 2 * n + d + 2 * d * a = omega arith in
      ap (λ t. t / (2 * d)) e ∙ add-mul-div_left (2 * n + d) a (omega arith) ∙ omega arith

  quotient :
      (k u m r : ℕ)
      → 2 * d * u + r ≡ 2 * m + d
      → r < 2 * d
      → r ≢ 0
      → m ≤ (k + u) * d
      → div_half_up ((k + u) * d - m) d ≡ k
  quotient k u m r e small some_rest below =
      let above : 0 < r = omega arith in div-eq_of_lt-le (2 * d) (omega arith) (omega arith)

  -- And taken from it, unless it is half way.
  pub div_half_up-sub :
      (a m : ℕ)
      → m ≤ a * d
      → (2 * m + d) % (2 * d) ≢ 0
      → div_half_up (a * d - m) d + div_half_up m d ≡ a
  div_half_up-sub a m below odd =
      let u = (2 * m + d) / (2 * d) in
      let fits : u < a + 1 =
        (div-lt_iff_lt-mul {k = 2 * d} {x = 2 * m + d} {y = a + 1} (omega arith)).1 (omega arith) in
      let parts : a - u + u ≡ a = omega arith in
      let run =
        quotient (a - u) u m ((2 * m + d) % (2 * d)) (div-add-mod (2 * m + d) (2 * d))
          (mod-lt (2 * m + d) (omega arith)) odd (rw parts below) in
      ap (λ t. t + u) (rw parts at run) ∙ parts

  pub le-div_half_up : (r n : ℕ) → r * d ≤ n → r ≤ div_half_up n d
  le-div_half_up r n h = (le-div_iff_mul-le {k = 2 * d} (omega arith)).1 (omega arith)

  pos_add_neg : (x u a : ℕ) → x + u ≡ a → pos x ≡ pos a +ℤ neg u
  unfolding ◌+ℤ◌
  pos_add_neg x zero a e = ground arith
  pos_add_neg x (suc u) a e = ground arith

  pos_sub : (x m : ℕ) → suc m ≤ x → pos x +ℤ negsuc m ≡ pos (x - suc m)
  unfolding ◌+ℤ◌
  pos_sub x m h = ground arith

  pos_add : (x y : ℕ) → pos x +ℤ pos y ≡ pos (x + y)
  unfolding ◌+ℤ◌
  pos_add x y = ground arith

  pub round-shift :
      (a b : ℕ) (c : ℤ)
      → pos (b * d) ≤ℤ pos (a * d) +ℤ c
      → ((m : ℕ) → c ≡ negsuc m → (2 * suc m + d) % (2 * d) ≢ 0)
      → IsShifted d a b c
  round-shift a b (pos n) h odd =
      let enough = rw pos_add at h in
      let low = le-div_half_up b (a * d + n) (omega arith) in
      record {
        sum = rw (pos_add (a * d) n, div_half_up-add a n) (sym (pos_add a (div_half_up n d)));
        within = rw (pos_add a (div_half_up n d), ← div_half_up-add a n) (omega arith);
      }
  round-shift a b (negsuc m) h odd =
      let below : suc m ≤ a * d = not_above (a * d) (b * d) m h in
      let rest = div_half_up-sub a (suc m) below (odd m refl) in
      let split = pos_add_neg (div_half_up (a * d - suc m) d) (div_half_up (suc m) d) a rest in
      let enough = rw (pos_sub (a * d) m below) at h in
      let low = le-div_half_up b (a * d - suc m) (omega arith) in
      record { sum = rw (pos_sub (a * d) m below) split; within = rw (← split) (omega arith) }
    where
      not_above : (x y m : ℕ) → pos y ≤ℤ pos x +ℤ negsuc m → suc m ≤ x
      not_above x y m h = ground (arith, +ℤ_parts (pos x) (negsuc m))
