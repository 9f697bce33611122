-- ===== src/Decimal/Defs.antt =====
-- Python's `decimal.Decimal` as the services use it: exact sums, differences and products, and
-- `quantize(scale, rounding=ROUND_HALF_UP)`.
use kapra_os.Prelude.{
  ℕ, zero, suc, ◌+◌, ◌-◌, ◌*◌, ◌/◌, ◌^◌, ◌≡◌, refl, leb, if◌then◌else◌, ℤ, pos, negsuc, ◌+ℤ◌, ◌-ℤ◌,
  ◌*ℤ◌,
}

-- coefficient * 10 ^ -places
pub record Decimal : Type 0 where
  pub coefficient : ℤ
  pub places : ℕ

-- The same number written with `k` more places.
unfoldable pub widen : ℤ → ℕ → ℤ
widen c k = c *ℤ pos (10 ^ k)

abbrev pub neg : ℕ → ℤ
neg zero = pos 0
neg (suc n) = negsuc n

-- The nearest integer to n / d, a tie going up.
abbrev pub div_half_up : ℕ → ℕ → ℕ
div_half_up n d = (2 * n + d) / (2 * d)

-- ROUND_HALF_UP rounds the magnitude, so a negative tie goes away from zero.
abbrev pub round_half_up : ℤ → ℕ → ℤ
round_half_up (pos n) d = pos (div_half_up n d)
round_half_up (negsuc n) d = neg (div_half_up (suc n) d)

-- `d.quantize(Decimal(10) ** -k, rounding=ROUND_HALF_UP)`, as a count of units of 10 ^ -k
unfoldable pub quantize : ℕ → Decimal → ℤ
unfolding widen
quantize k d =
    if leb d.places k
    then widen d.coefficient (k - d.places)
    else round_half_up d.coefficient (10 ^ (d.places - k))

unfoldable pub mul : Decimal → Decimal → Decimal
mul a b = record { coefficient = a.coefficient *ℤ b.coefficient; places = a.places + b.places }

unfoldable pub sub : Decimal → Decimal → Decimal
unfolding widen
sub a b =
    if leb b.places a.places
    then record {
      coefficient = a.coefficient -ℤ widen b.coefficient (a.places - b.places);
      places = a.places;
    }
    else record {
      coefficient = widen a.coefficient (b.places - a.places) -ℤ b.coefficient;
      places = b.places;
    }

unfoldable pub add : Decimal → Decimal → Decimal
unfolding widen
add a b =
    if leb b.places a.places
    then record {
      coefficient = a.coefficient +ℤ widen b.coefficient (a.places - b.places);
      places = a.places;
    }
    else record {
      coefficient = widen a.coefficient (b.places - a.places) +ℤ b.coefficient;
      places = b.places;
    }

-- Values of the columns: NUMERIC(14, 2) money, NUMERIC(14, 3) quantities, NUMERIC(14, 4) costs.
abbrev pub cents : ℤ → Decimal
cents c = record { coefficient = c; places = 2 }

abbrev pub mills : ℤ → Decimal
mills q = record { coefficient = q; places = 3 }

abbrev pub ten_thousandths : ℤ → Decimal
ten_thousandths c = record { coefficient = c; places = 4 }

abbrev pub money_scale : ℕ
money_scale = 2

abbrev pub quantity_scale : ℕ
quantity_scale = 3

tie_away_from_zero : quantize 2 (record { coefficient = negsuc 4; places = 3 }) ≡ negsuc 0
unfolding quantize
tie_away_from_zero = refl

rounds_up : quantize 2 (record { coefficient = pos 12345; places = 3 }) ≡ pos 1235
unfolding quantize
rounds_up = refl
