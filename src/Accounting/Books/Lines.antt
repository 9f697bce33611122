-- ===== src/Accounting/Books/Lines.antt =====
-- The lines that the postings of a sale and of a customer return build: each is one positive debit
-- or one positive credit, and they balance.
use kapra_os.Prelude.{
  ℕ, String, ◌≡◌, refl, sym, ◌∙◌, ◌⊎◌, inl, inr, Option, List, [], ◌∷◌, ◌++◌, arith, ℤ, pos, ◌+ℤ◌,
  ◌≤ℤ◌, ◌<ℤ◌, ltb_ℤ, int_laws, Bool-cases, ltb_ℤ→lt, ltb_ℤ→le,
}
use kapra_os.Session.{ok}
use kapra_os.Accounting.Group.{Line, debit_line, credit_line, check_lines}
use kapra_os.Accounting.Posts.{line_if}
use kapra_os.Accounting.Books.Sums.{line_debits, line_credits, +ℤ_assoc, +ℤ_zero}

-- Exactly one positive debit or one positive credit.
abbrev pub IsValidLine : Line → Type 0
IsValidLine l =
    ((pos 0 <ℤ l.debit) × (l.credit ≡ pos 0)) ⊎ ((pos 0 <ℤ l.credit) × (l.debit ≡ pos 0))

abbrev pub All {ℓ κ} : {A : Type ℓ} → (A → Type κ) → List A → Type κ
All P [] = Unit
All P (x ∷ l) = P x × All P l

-- Valid lines with these sums.
pub record Posts (d c : ℤ) (lines : List Line) : Type 0 where
  pub valid : All IsValidLine lines
  pub debited : line_debits lines ≡ d
  pub credited : line_credits lines ≡ c

All-append {ℓ κ} : {A : Type ℓ} (P : A → Type κ) (l m : List A) → All P l → All P m → All P (l ++ m)
All-append P [] m h k = k
All-append P (x ∷ l) m h k = (h.0, All-append P l m h.1 k)

line_debits-append : (l m : List Line) → line_debits (l ++ m) ≡ line_debits l +ℤ line_debits m
line_debits-append [] m = omega int_laws
line_debits-append (x ∷ l) m = rw (line_debits-append l m) (omega int_laws)

line_credits-append : (l m : List Line) → line_credits (l ++ m) ≡ line_credits l +ℤ line_credits m
line_credits-append [] m = omega int_laws
line_credits-append (x ∷ l) m = rw (line_credits-append l m) (omega int_laws)

pub Posts-append :
    (d c e f : ℤ) (l m : List Line) → Posts d c l → Posts e f m → Posts (d +ℤ e) (c +ℤ f) (l ++ m)
Posts-append d c e f l m h k = record {
  valid = All-append IsValidLine l m h.valid k.valid;
  debited = rw (line_debits-append, h.debited, k.debited) refl;
  credited = rw (line_credits-append, h.credited, k.credited) refl;
}

pub Posts-cast :
    {d c d' c' : ℤ} {lines : List Line} → d ≡ d' → c ≡ c' → Posts d c lines → Posts d' c' lines
Posts-cast p q h = record { valid = h.valid; debited = h.debited ∙ p; credited = h.credited ∙ q }

pub Posts-debit :
    (id : ℕ) (v : ℤ) (text : Option String)
    → pos 0 <ℤ v
    → Posts v (pos 0) (debit_line id v text ∷ [])
Posts-debit id v text h = record {
  valid = (inl (h, refl), tt);
  debited = omega int_laws;
  credited = omega int_laws;
}

pub Posts-credit :
    (id : ℕ) (v : ℤ) (text : Option String)
    → pos 0 <ℤ v
    → Posts (pos 0) v (credit_line id v text ∷ [])
Posts-credit id v text h = record {
  valid = (inr (h, refl), tt);
  debited = omega int_laws;
  credited = omega int_laws;
}

pub Posts-nil : (d c : ℤ) → d ≡ pos 0 → c ≡ pos 0 → Posts d c []
Posts-nil d c p q = record { valid = tt; debited = sym p; credited = sym q }

-- A line that is there only for a positive amount.
pub Posts-debit_if :
    (id : ℕ) (v : ℤ) (text : Option String)
    → pos 0 ≤ℤ v
    → Posts v (pos 0) (line_if (ltb_ℤ (pos 0) v) (debit_line id v text))
Posts-debit_if id v text h = elim (Bool-cases (ltb_ℤ (pos 0) v)) [
  | inl e ↦ rw e (Posts-debit id v text (ltb_ℤ→lt (pos 0) v e))
  | inr e ↦ let none_left = ltb_ℤ→le (pos 0) v e in rw e (Posts-nil v (pos 0) (omega int_laws) refl)
]

pub Posts-credit_if :
    (id : ℕ) (v : ℤ) (text : Option String)
    → pos 0 ≤ℤ v
    → Posts (pos 0) v (line_if (ltb_ℤ (pos 0) v) (credit_line id v text))
Posts-credit_if id v text h = elim (Bool-cases (ltb_ℤ (pos 0) v)) [
  | inl e ↦ rw e (Posts-credit id v text (ltb_ℤ→lt (pos 0) v e))
  | inr e ↦ let none_left = ltb_ℤ→le (pos 0) v e in rw e (Posts-nil (pos 0) v refl (omega int_laws))
]

-- Valid lines pass the checks, with their sums.
pub check_valid :
    (d c : ℤ) (lines : List Line)
    → All IsValidLine lines
    → check_lines d c lines ≡ ok (d +ℤ line_debits lines, c +ℤ line_credits lines)
unfolding check_lines
check_valid d c [] h = ground (arith, add_zero d, add_zero c)
  where
    add_zero : (a : ℤ) → a +ℤ pos 0 ≡ a
    add_zero a = omega int_laws
check_valid d c (l ∷ lines) h = ground (
  arith,
  check_valid (d +ℤ l.debit) (c +ℤ l.credit) lines h.1,
  +ℤ_assoc d l.debit (line_debits lines),
  +ℤ_assoc c l.credit (line_credits lines),
)

pub Posts-check :
    (d c : ℤ) (lines : List Line) → Posts d c lines → check_lines (pos 0) (pos 0) lines ≡ ok (d, c)
Posts-check d c lines h =
    check_valid (pos 0) (pos 0) lines h.valid ∙ rw (+ℤ_zero, +ℤ_zero, h.debited, h.credited) refl
