-- ===== src/Decimal/Division.antt =====
-- Decimal division under Python's default context: 28 significant digits, ROUND_HALF_EVEN.
use kapra_os.Prelude.{
  ℕ, zero, suc, ◌+◌, ◌-◌, ◌*◌, ◌/◌, ◌%◌, ◌^◌, ◌≡◌, refl, ltb, ◌==◌, if◌then◌else◌, ℤ, pos, pos_part,
  neg_part, Bool, true, false, ◌||◌, ◌&&◌, Option, none, some,
}
use kapra_os.Decimal.Defs.{Decimal, neg, mul}

-- The count of decimal digits, for numbers of fewer than `fuel` digits.
unfoldable pub digit_count : ℕ → ℕ → ℕ
digit_count zero n = 1
digit_count (suc fuel) n = let rest = digit_count fuel (n / 10) in if ltb n 10 then 1 else suc rest

-- Products of two NUMERIC(14, _) values have at most 28 digits.
abbrev pub digit_fuel : ℕ
digit_fuel = 60

unfoldable pub digits : ℕ → ℕ
unfolding digit_count
digits n = digit_count digit_fuel n

-- The nearest integer to n / d, a tie going to the even one.
unfoldable pub div_half_even : ℕ → ℕ → ℕ
div_half_even n d =
    if ltb d (2 * (n % d)) || (2 * (n % d) == d && n / d % 2 == 1) then n / d + 1 else n / d

abbrev pub precision : ℕ
precision = 28

-- n / d rounded to `scale` places, less the `digits n` places that n has too many.
abbrev pub rounded : ℕ → ℕ → ℕ → ℕ
rounded scale n d = div_half_even (n * 10 ^ scale) (d * 10 ^ digits n) * 10 ^ digits n

-- How many places keep 28 significant digits: n / d has `digits n - digits d` digits before the
-- point, or one more.
unfoldable pub scale_of : ℕ → ℕ → ℕ
scale_of n d =
    if ltb (n * 10 ^ (precision + digits d)) (d * 10 ^ digits n * 10 ^ precision)
    then precision + digits d
    else precision + digits d - 1

-- |a| / |b| for the magnitudes n of a and d of b, as a magnitude and its places.
unfoldable pub divide_ℕ : ℕ → ℕ → ℕ × ℕ
unfolding digits div_half_even scale_of
divide_ℕ n d = (rounded (scale_of n d) n d, scale_of n d)

abbrev pub signed : Bool → ℕ → ℤ
signed true n = pos n
signed false n = neg n

abbrev pub magnitude : ℤ → ℕ
magnitude a = pos_part a + neg_part a

abbrev pub same_sign : ℤ → ℤ → Bool
same_sign a b = (neg_part a == 0 && neg_part b == 0) || (ltb 0 (neg_part a) && ltb 0 (neg_part b))

-- `a / b`; nothing where Python raises DivisionByZero or InvalidOperation.
unfoldable pub divide : Decimal → Decimal → Option Decimal
unfolding divide_ℕ
divide a b =
    if magnitude b.coefficient == 0
    then none
    else (let (m, scale) = divide_ℕ (magnitude a.coefficient) (magnitude b.coefficient) in
        some (record {
          coefficient = signed (same_sign a.coefficient b.coefficient) (m * 10 ^ b.places);
          places = scale + a.places;
        }))

-- A coefficient rounded to `k` fewer digits, with zeros in their place.
abbrev pub drop_digits : ℕ → ℕ → ℕ
drop_digits k n = div_half_even n (10 ^ k) * 10 ^ k

-- The magnitude to 28 significant digits.
unfoldable pub fit : ℕ → ℕ
unfolding digit_count div_half_even
fit n =
    if ltb precision (digit_count 100 n) then drop_digits (digit_count 100 n - precision) n else n

-- `a * b` where the exact product may have more than 28 digits, as after a division.
unfoldable pub mul_rounded : Decimal → Decimal → Decimal
unfolding fit mul
mul_rounded a b =
    let product = (mul a b).coefficient in
    record {
      coefficient = signed (neg_part product == 0) (fit (magnitude product));
      places = a.places + b.places;
    }

-- 1 / 30 * 0.15 is a tie that the 28 digits lose: they are below 1 / 30.
third : (divide_ℕ 1 30).0 ≡ 3333333333333333333333333333 * 10
unfolding divide_ℕ
third = refl

digits_of_sixteen : digits 1234567890123456 ≡ 16
unfolding digits
digits_of_sixteen = refl
