-- ===== src/Sales/LineTotals.antt =====
-- The total of a line against the CHECK constraint of `sale_items`,
-- `total = round(quantity * unit_price, 2) - discount`.
use kapra_os.Prelude.{
  ℕ, ◌+◌, ◌*◌, ◌≤◌, ◌≡◌, ◌≢◌, arith, ℤ, pos, negsuc, ◌*ℤ◌, ◌-ℤ◌, ◌≤ℤ◌, ap, ◌∙◌, sym,
}
use kapra_os.Decimal.{mul, sub, quantize, round_half_up, div_half_up}
use kapra_os.Sales.Lines.{gross, line_total}

-- The product of the quantity and the unit price is exact, in 10 ^ -5.
gross_lem : (q p : ℕ) → gross (pos q) (pos p) ≡ pos (div_half_up (q * p) 1000)
unfolding gross quantize mul ◌*ℤ◌
gross_lem q p = ground arith

line_total_lem :
    (q p d : ℕ)
    → line_total (pos q) (pos p) (pos d) ≡ round_half_up (pos (q * p) -ℤ pos (d * 1000)) 1000
unfolding line_total quantize mul sub ◌*ℤ◌ ◌-ℤ◌
line_total_lem q p d = ground arith

round_difference :
    (n d : ℕ)
    → d ≤ div_half_up n 1000
    → n + 500 ≢ d * 1000
    → round_half_up (pos n -ℤ pos (d * 1000)) 1000 ≡ pos (div_half_up n 1000) -ℤ pos d
unfolding ◌-ℤ◌
round_difference n d h off = ground arith

-- A line whose discount is at most its rounded gross amount satisfies the constraint, but where the
-- exact product falls short of the discount by half a cent.
pub line_total-eq :
    (q p d : ℕ)
    → pos d ≤ℤ gross (pos q) (pos p)
    → q * p + 500 ≢ d * 1000
    → line_total (pos q) (pos p) (pos d) ≡ gross (pos q) (pos p) -ℤ pos d
line_total-eq q p d h off =
    line_total_lem q p d
    ∙ round_difference (q * p) d (let h' = rw gross_lem at h in omega arith) off
    ∙ ap (λ (g : ℤ). g -ℤ pos d) (sym (gross_lem q p))

round_tie :
    (n d : ℕ)
    → n + 500 ≡ d * 1000
    → (div_half_up n 1000 ≡ d) × (round_half_up (pos n -ℤ pos (d * 1000)) 1000 ≡ negsuc 0)
unfolding ◌-ℤ◌
round_tie n d h = (ground arith, ground arith)

-- Where the exact product is half a cent below the discount, the discount is the rounded gross
-- amount, so it is accepted, and the line's total is -0.01, which the constraint refuses.
pub line_total_tie :
    (q p d : ℕ)
    → q * p + 500 ≡ d * 1000
    → (gross (pos q) (pos p) ≡ pos d) × (line_total (pos q) (pos p) (pos d) ≡ negsuc 0)
line_total_tie q p d h =
    let tie = round_tie (q * p) d h in (gross_lem q p ∙ ap pos tie.0, line_total_lem q p d ∙ tie.1)
