-- ===== src/Sales/InvoiceNumber.antt =====
-- Invoice numbers: `str.strip`, `_format_invoice_number` and the scan of `_allocate_invoice_number`
-- in backend/app/services/sales.py.
use kapra_os.Prelude.{
  ℕ, zero, suc, ◌+◌, ◌-◌, ◌*◌, ◌/◌, ◌%◌, ltb, leb, ◌==◌, if◌then◌else◌, Bool, true, false, ◌&&◌,
  ◌||◌, Option, none, some, List, [], ◌∷◌, ◌++◌, ◌≡◌, refl,
}
use kapra_os.Tables.{Text}

abbrev pub same_text : Text → Text → Bool
same_text [] [] = true
same_text (a ∷ s) (b ∷ t) = a == b && same_text s t
same_text _ _ = false

abbrev pub text_in : Text → List Text → Bool
text_in t [] = false
text_in t (u ∷ texts) = same_text t u || text_in t texts

-- `str.isspace` of one code point
unfoldable pub is_space : ℕ → Bool
is_space c =
    (leb 9 c && leb c 13)
    || (leb 28 c && leb c 32)
    || c == 133
    || c == 160
    || c == 5760
    || (leb 8192 c && leb c 8202)
    || c == 8232
    || c == 8233
    || c == 8239
    || c == 8287
    || c == 12288

unfoldable pub strip_left : Text → Text
unfolding is_space
strip_left [] = []
strip_left (c ∷ t) = let rest = strip_left t in if is_space c then rest else c ∷ t

abbrev drop_if_last : ℕ → Text → Text
drop_if_last c [] = if is_space c then [] else c ∷ []
drop_if_last c (d ∷ t) = c ∷ d ∷ t

unfoldable pub strip_right : Text → Text
unfolding is_space
strip_right [] = []
strip_right (c ∷ t) = drop_if_last c (strip_right t)

unfoldable pub strip : Text → Text
unfolding strip_left strip_right
strip t = strip_left (strip_right t)

-- The decimal digits of n, at least `width` of them.
unfoldable pub print_digits : ℕ → ℕ → ℕ → Text
print_digits zero width n = []
print_digits (suc fuel) width n =
    let rest = print_digits fuel (width - 1) (n / 10) in
    if ltb n 10 && leb width 1 then (b'0' + n) ∷ [] else rest ++ (b'0' + n % 10) ∷ []

abbrev pub prefix : Text
prefix = b'I' ∷ b'N' ∷ b'V' ∷ b'-' ∷ []

-- f"INV-{seq:06d}"; a number n has at most n + 6 digits at this width.
unfoldable pub format_invoice_number : ℕ → Text
unfolding print_digits
format_invoice_number seq = prefix ++ print_digits (seq + 7) 6 seq

-- The zeros of the decimal digits (category Nd) of Unicode 15.0, which Python 3.12 has, but for the
-- ASCII zero; each is followed by the other nine digits of its script.
abbrev pub other_zeros : List ℕ
other_zeros =
    1632 ∷ 1776 ∷ 1984 ∷ 2406 ∷ 2534 ∷ 2662 ∷ 2790 ∷ 2918 ∷ 3046 ∷ 3174 ∷ 3302 ∷ 3430 ∷ 3558 ∷ 3664
    ∷ 3792 ∷ 3872 ∷ 4160 ∷ 4240 ∷ 6112 ∷ 6160 ∷ 6470 ∷ 6608 ∷ 6784 ∷ 6800 ∷ 6992 ∷ 7088 ∷ 7232
    ∷ 7248 ∷ 42528 ∷ 43216 ∷ 43264 ∷ 43472 ∷ 43504 ∷ 43600 ∷ 44016 ∷ 65296 ∷ 66720 ∷ 68912 ∷ 69734
    ∷ 69872 ∷ 69942 ∷ 70096 ∷ 70384 ∷ 70736 ∷ 70864 ∷ 71248 ∷ 71360 ∷ 71472 ∷ 71904 ∷ 72016 ∷ 72784
    ∷ 73040 ∷ 73120 ∷ 73552 ∷ 92768 ∷ 92864 ∷ 93008 ∷ 120782 ∷ 120792 ∷ 120802 ∷ 120812 ∷ 120822
    ∷ 123200 ∷ 123632 ∷ 124144 ∷ 125264 ∷ 130032 ∷ []

unfoldable pub digit_from : List ℕ → ℕ → Option ℕ
digit_from [] c = none
digit_from (z ∷ zeros) c =
    let later = digit_from zeros c in if leb z c && ltb c (z + 10) then some (c - z) else later

-- The value of a code point that `\d` matches and `int` reads.
unfoldable pub decimal_digit : ℕ → Option ℕ
unfolding digit_from
decimal_digit c = digit_from (b'0' ∷ other_zeros) c

-- `int` of a text of digits, after the value so far.
unfoldable pub digits_value : ℕ → Text → Option ℕ
unfolding decimal_digit
digits_value acc [] = some acc
digits_value acc (c ∷ t) = elim (decimal_digit c) [
  | none ↦ none
  | some d ↦ digits_value (acc * 10 + d) t
]

-- `$` also matches before a newline at the end.
unfoldable pub drop_newline : Text → Text
drop_newline [] = []
drop_newline (c ∷ []) = if c == 10 then [] else c ∷ []
drop_newline (c ∷ d ∷ t) = c ∷ drop_newline (d ∷ t)

abbrev pub nonempty_value : Text → Option ℕ
nonempty_value [] = none
nonempty_value (c ∷ t) = digits_value 0 (c ∷ t)

-- The group of `^INV-(\d+)$`.
unfoldable pub parse_invoice_number : Text → Option ℕ
unfolding digits_value drop_newline
parse_invoice_number (i ∷ n ∷ v ∷ dash ∷ t) =
    if i == b'I' && n == b'N' && v == b'V' && dash == b'-'
    then nonempty_value (drop_newline t)
    else none
parse_invoice_number _ = none

abbrev pub max_with : Option ℕ → ℕ → ℕ
max_with none m = m
max_with (some k) m = if ltb m k then k else m

-- `max_seq` after the loop over the existing numbers.
unfoldable pub max_sequence : ℕ → List Text → ℕ
max_sequence m [] = m
max_sequence m (t ∷ texts) = max_sequence (max_with (parse_invoice_number t) m) texts

-- The `while True` loop, on fuel.
unfoldable pub first_free : ℕ → List Text → ℕ → Option Text
first_free zero existing seq = none
first_free (suc fuel) existing seq =
    let rest = first_free fuel existing (seq + 1) in
    if text_in (format_invoice_number seq) existing then rest else some (format_invoice_number seq)

number_seven : format_invoice_number 7 ≡ prefix ++ b'0' ∷ b'0' ∷ b'0' ∷ b'0' ∷ b'0' ∷ b'7' ∷ []
unfolding format_invoice_number
number_seven = refl

number_of_millions : parse_invoice_number (format_invoice_number 1234567) ≡ some 1234567
unfolding format_invoice_number parse_invoice_number
number_of_millions = refl

-- An Arabic-Indic seven, and a newline at the end.
number_of_digits : parse_invoice_number (prefix ++ 1639 ∷ 10 ∷ []) ≡ some 7
unfolding parse_invoice_number
number_of_digits = refl
