-- ===== src/Accounting/Books/Sums.antt =====
-- Sums over the rows of chosen posting groups, and balanced ledgers.
use kapra_os.Prelude.{
  ℕ, suc, ◌≡◌, refl, ◌∙◌, Bool, ◌&&◌, not, if◌then◌else◌, List, [], ◌∷◌, ◌++◌, arith, ℤ, pos, ◌+ℤ◌,
  int_laws,
}
use kapra_os.Tables.{Db, LedgerEntry, Reference}
use kapra_os.Session.{Result, ok, err}
use kapra_os.Accounting.Group.{Line, check_lines, new_entries, reject}

-- A set of posting groups, by shop, reference type and reference.
abbrev pub Groups : Type 0
Groups = ℕ → Reference → ℕ → Bool

abbrev pub is_in : Groups → LedgerEntry → Bool
is_in p e = p e.shop_id e.reference_type e.reference_id

abbrev pub sum_of : Groups → (LedgerEntry → ℤ) → List LedgerEntry → ℤ
sum_of p f [] = pos 0
sum_of p f (e ∷ l) = let rest = sum_of p f l in if is_in p e then f e +ℤ rest else rest

abbrev pub debits : Groups → List LedgerEntry → ℤ
debits p = sum_of p (λ e. e.debit)

abbrev pub credits : Groups → List LedgerEntry → ℤ
credits p = sum_of p (λ e. e.credit)

-- Whatever groups are chosen, their debits and their credits have one sum.
pub record IsBalanced (s : Db) : Type 0 where
  pub groups : (p : Groups) → debits p s.ledger ≡ credits p s.ledger

pub +ℤ_zero : (a : ℤ) → pos 0 +ℤ a ≡ a
+ℤ_zero a = omega int_laws

pub +ℤ_assoc : (a b c : ℤ) → a +ℤ b +ℤ c ≡ a +ℤ (b +ℤ c)
+ℤ_assoc a b c = omega int_laws

pub sum_of-append :
    (p : Groups) (f : LedgerEntry → ℤ) (l m : List LedgerEntry)
    → sum_of p f (l ++ m) ≡ sum_of p f l +ℤ sum_of p f m
sum_of-append p f [] m = omega int_laws
sum_of-append p f (e ∷ l) m =
    ground (arith, sum_of-append p f l m, +ℤ_assoc (f e) (sum_of p f l) (sum_of p f m))

pub sum_of-reject :
    (p q : Groups) (f : LedgerEntry → ℤ) (l : List LedgerEntry)
    → sum_of p f (reject (is_in q) l) ≡ sum_of (λ s k r. p s k r && not (q s k r)) f l
sum_of-reject p q f [] = refl
sum_of-reject p q f (e ∷ l) = ground (arith, sum_of-reject p q f l)

-- The sums over the lines of one group.
abbrev pub line_debits : List Line → ℤ
line_debits [] = pos 0
line_debits (l ∷ lines) = l.debit +ℤ line_debits lines

abbrev pub line_credits : List Line → ℤ
line_credits [] = pos 0
line_credits (l ∷ lines) = l.credit +ℤ line_credits lines

module _ (uuid4 : ℕ → ℕ) (now shop_id : ℕ) (kind : Reference) (reference_id : ℕ) (p : Groups) where
  pub debits-new_entries :
      (n : ℕ) (lines : List Line)
      → debits p (new_entries uuid4 now shop_id kind reference_id n lines)
        ≡ (if p shop_id kind reference_id then line_debits lines else pos 0)
  unfolding new_entries
  debits-new_entries n [] = ground arith
  debits-new_entries n (l ∷ lines) = ground (arith, debits-new_entries (suc n) lines)

  pub credits-new_entries :
      (n : ℕ) (lines : List Line)
      → credits p (new_entries uuid4 now shop_id kind reference_id n lines)
        ≡ (if p shop_id kind reference_id then line_credits lines else pos 0)
  unfolding new_entries
  credits-new_entries n [] = ground arith
  credits-new_entries n (l ∷ lines) = ground (arith, credits-new_entries (suc n) lines)

-- What the validation loop returns are the sums of the lines.
abbrev pub Totals : ℤ → ℤ → List Line → Result (ℤ × ℤ) → Type 0
Totals d c lines (ok (d', c')) = (d' ≡ d +ℤ line_debits lines) × (c' ≡ c +ℤ line_credits lines)
Totals d c lines (err e) = Unit

Totals-step :
    (d c : ℤ) (l : Line) (lines : List Line) (r : Result (ℤ × ℤ))
    → Totals (d +ℤ l.debit) (c +ℤ l.credit) lines r
    → Totals d c (l ∷ lines) r
Totals-step d c l lines (ok (d', c')) h =
    (h.0 ∙ +ℤ_assoc d l.debit (line_debits lines), h.1 ∙ +ℤ_assoc c l.credit (line_credits lines))
Totals-step d c l lines (err e) h = tt

pub check_lines-Totals : (d c : ℤ) (lines : List Line) → Totals d c lines (check_lines d c lines)
unfolding check_lines
check_lines-Totals d c [] = (omega int_laws, omega int_laws)
check_lines-Totals d c (l ∷ lines) = ground (
  arith,
  Totals-step d c l lines (check_lines (d +ℤ l.debit) (c +ℤ l.credit) lines)
      (check_lines-Totals (d +ℤ l.debit) (c +ℤ l.credit) lines),
)
