-- ===== src/Sales/Numbering.antt =====
-- The number that `_allocate_invoice_number` finds.
use kapra_os.Prelude.{
  ℕ, zero, suc, ◌+◌, ◌-◌, ◌*◌, ◌/◌, ◌%◌, ◌≤◌, ◌<◌, ◌==◌, ◌≡◌, refl, ◌∙◌, ap, sym, true, false, ◌&&◌,
  ltb, leb, Option, none, some, List, [], ◌∷◌, ◌++◌, arith, inl, inr, Bool-cases, Option-cases,
}
use kapra_os.Tables.{Db, Text}
use kapra_os.Session.{ok, ◌>>=◌}
use kapra_os.Accounting.Group.{any_row, rows}
use kapra_os.Sales.Create.{get_shop, numbers_of, number_used, allocate_invoice_number}
use kapra_os.Sales.InvoiceNumber.{
  same_text, text_in, print_digits, format_invoice_number, other_zeros, digit_from, decimal_digit,
  digits_value, drop_newline, nonempty_value, parse_invoice_number, max_with, max_sequence,
  first_free,
}

-- One more digit.
abbrev next_digit : ℕ → Option ℕ → Option ℕ
next_digit d none = none
next_digit d (some n) = some (n * 10 + d)

digit_from-first : (z d : ℕ) (zeros : List ℕ) → d < 10 → digit_from (z ∷ zeros) (z + d) ≡ some d
unfolding digit_from
digit_from-first z d zeros h = ground arith

decimal_digit-ascii : (d : ℕ) → d < 10 → decimal_digit (48 + d) ≡ some d
unfolding decimal_digit
decimal_digit-ascii d h = digit_from-first 48 d other_zeros h

digits_value-append :
    (l : Text) (acc d : ℕ)
    → d < 10
    → digits_value acc (l ++ (48 + d) ∷ []) ≡ next_digit d (digits_value acc l)
unfolding digits_value
digits_value-append [] acc d h = rw (decimal_digit-ascii d h, digits_value) refl
digits_value-append (c ∷ l) acc d h = elim (Option-cases (decimal_digit c)) [
  | inl other ↦ rw (other, digits_value) refl
  | inr (e, known) ↦ rw (known, digits_value) (digits_value-append l (acc * 10 + e) d h)
]

digits_value-print : (fuel w n : ℕ) → n + w < fuel → digits_value 0 (print_digits fuel w n) ≡ some n
unfolding print_digits digits_value
digits_value-print zero w n h = ground arith
digits_value-print (suc fuel) w n h = elim (Bool-cases (ltb n 10 && leb w 1)) [
  | inl e ↦
      let small : n < 10 = ground arith in
      rw e (digits_value-append [] 0 n small ∙ ap some (omega arith))
  | inr e ↦
      let smaller : n / 10 + (w - 1) < fuel = ground arith in
      rw (e, print_digits)
        (digits_value-append (print_digits fuel (w - 1) (n / 10)) 0 (n % 10) (omega arith)
          ∙ rw (digits_value-print fuel (w - 1) (n / 10) smaller) (ap some (omega arith)))
]

nonempty_value-append :
    (l : Text) (c : ℕ) → nonempty_value (l ++ c ∷ []) ≡ digits_value 0 (l ++ c ∷ [])
nonempty_value-append [] c = refl
nonempty_value-append (d ∷ l) c = refl

nonempty_value-print :
    (fuel w n : ℕ)
    → nonempty_value (print_digits (suc fuel) w n) ≡ digits_value 0 (print_digits (suc fuel) w n)
unfolding print_digits
nonempty_value-print fuel w n = elim (Bool-cases (ltb n 10 && leb w 1)) [
  | inl e ↦ rw e refl
  | inr e ↦ rw e (nonempty_value-append (print_digits fuel (w - 1) (n / 10)) (48 + n % 10))
]

drop_newline-append : (l : Text) (c : ℕ) → 10 < c → drop_newline (l ++ c ∷ []) ≡ l ++ c ∷ []
unfolding drop_newline
drop_newline-append [] c h = ground arith
drop_newline-append (a ∷ []) c h = ground arith
drop_newline-append (a ∷ b ∷ l) c h = ap (λ t. a ∷ t) (drop_newline-append (b ∷ l) c h)

-- The last character that is printed is a digit.
drop_newline-print : (fuel w n : ℕ) → drop_newline (print_digits fuel w n) ≡ print_digits fuel w n
unfolding drop_newline print_digits
drop_newline-print zero w n = refl
drop_newline-print (suc fuel) w n = elim (Bool-cases (ltb n 10 && leb w 1)) [
  | inl e ↦ rw e (ground arith)
  | inr e ↦
      rw e (drop_newline-append (print_digits fuel (w - 1) (n / 10)) (48 + n % 10) (omega arith))
]

-- The scan reads back the number of every invoice that `_format_invoice_number` printed.
pub parse-format : (n : ℕ) → parse_invoice_number (format_invoice_number n) ≡ some n
unfolding parse_invoice_number format_invoice_number
parse-format n =
    rw (drop_newline-print (n + 7) 6 n, fuel n)
      (nonempty_value-print (n + 6) 6 n ∙ digits_value-print (suc (n + 6)) 6 n (omega arith))
  where
    fuel : (k : ℕ) → k + 7 ≡ suc (k + 6)
    fuel k = omega arith

same_text-eq : (t u : Text) → same_text t u ≡ true → t ≡ u
same_text-eq [] [] h = refl
same_text-eq (a ∷ t) (b ∷ u) h = ground (arith, same_text-eq t u)
same_text-eq [] (b ∷ u) h = ground arith
same_text-eq (a ∷ t) [] h = ground arith

max_with-le : (o : Option ℕ) (m : ℕ) → m ≤ max_with o m
max_with-le none m = omega arith
max_with-le (some k) m = ground arith

max_with-ge : (o : Option ℕ) (m k : ℕ) → o ≡ some k → k ≤ max_with o m
max_with-ge none m k h = ground arith
max_with-ge (some j) m k h = ground arith

max_sequence-start : (m : ℕ) (texts : List Text) → m ≤ max_sequence m texts
unfolding max_sequence
max_sequence-start m [] = omega arith
max_sequence-start m (t ∷ texts) =
    let first = max_with-le (parse_invoice_number t) m in
    let later = max_sequence-start (max_with (parse_invoice_number t) m) texts in omega arith

-- No number in use is above the greatest.
max_sequence-bound :
    (k : ℕ) (t : Text) (texts : List Text) (m : ℕ)
    → parse_invoice_number t ≡ some k
    → text_in t texts ≡ true
    → k ≤ max_sequence m texts
unfolding max_sequence
max_sequence-bound k t [] m p h = ground arith
max_sequence-bound k t (u ∷ texts) m p h = elim (Bool-cases (same_text t u)) [
  | inl e ↦
      let own =
        max_with-ge (parse_invoice_number u) m k
          (ap parse_invoice_number (sym (same_text-eq t u e)) ∙ p) in
      let later = max_sequence-start (max_with (parse_invoice_number u) m) texts in omega arith
  | inr e ↦ max_sequence-bound k t texts _ p (let h' = rw e at h in h')
]

-- The candidate after the greatest number in use is free.
next_number-free :
    (existing : List Text)
    → text_in (format_invoice_number (max_sequence 0 existing + 1)) existing ≡ false
next_number-free existing =
    let n = max_sequence 0 existing + 1 in
    elim (Bool-cases (text_in (format_invoice_number n) existing)) [
      | inl used ↦
          let bound =
            max_sequence-bound n (format_invoice_number n) existing 0 (parse-format n) used in
          ground arith
      | inr free ↦ free
    ]

suc_fuel : (n : ℕ) → suc n ≡ n + 1
suc_fuel n = omega arith

first_free-next :
    (fuel : ℕ) (existing : List Text)
    → first_free (fuel + 1) existing (max_sequence 0 existing + 1)
      ≡ some (format_invoice_number (max_sequence 0 existing + 1))
unfolding first_free
first_free-next fuel existing = rw (← suc_fuel fuel, next_number-free existing) refl

-- The number after the greatest one among the shop's sales.
abbrev pub next_number : ℕ → Db → Text
next_number shop_id s = format_invoice_number (max_sequence 0 (numbers_of shop_id s.sales) + 1)

-- For a shop that exists, the loop for a free invoice number returns in its first round, with the
-- number after the greatest one in use; none of the shop's sales has it, so the unique index on
-- the numbers accepts it, and nothing is written.
pub allocate_invoice_number-free :
    (shop_id : ℕ) (s : Db)
    → any_row (λ id. id == shop_id) s.shops ≡ true
    → (allocate_invoice_number shop_id s ≡ ok (next_number shop_id s, s))
      × (number_used shop_id (some (next_number shop_id s)) s.sales ≡ false)
unfolding allocate_invoice_number get_shop ◌>>=◌
allocate_invoice_number-free shop_id s exists =
    let existing = numbers_of shop_id s.sales in
    (rw exists (rw (first_free-next (rows existing) existing) refl), next_number-free existing)
