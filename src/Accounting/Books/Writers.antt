-- ===== src/Accounting/Books/Writers.antt =====
-- Every writer of the ledger keeps it balanced.
use kapra_os.Prelude.{
  ℕ, ◌≡◌, true, ◌&&◌, not, List, arith, ℤ, pos, eqb_ℤ, eqb_ℤ→eq, inl, inr, Bool-cases, Option, sym,
  ◌∙◌, ◌++◌,
}
use kapra_os.Prelude.{◌==◌, [], ◌∷◌, String, Option-cases}
use kapra_os.Session.{new_uuid}
use kapra_os.Session.Keeps.{Keeps-or_raise, keeps_rules}
use kapra_os.Tables.{Account, AccountType, same_reference}
use kapra_os.Accounting.Chart.{
  ensure_account, ensure_accounts, ensure_system_accounts, account, by_code, default_accounts,
}
use kapra_os.Accounting.Group.{has_type}
use kapra_os.Tables.{Reference}
use kapra_os.Session.{modify, ◌>>=◌, ok}
use kapra_os.Session.Keeps.{
  Keeps, Keeps-bind, Keeps-gets, Keeps-pure, Keeps-if, Triple-lift-bind, Keeps-guard-bind,
}
use kapra_os.Accounting.Group.{
  Line, check_lines, new_entries, is_unique, add_entries, post_group, delete_entries,
  delete_posting, delete_postings_for_reference,
}
use kapra_os.Accounting.Books.Sums.{
  Groups, is_in, IsBalanced, line_debits, line_credits, sum_of-append, sum_of-reject,
  debits-new_entries, credits-new_entries, Totals, check_lines-Totals, +ℤ_zero,
}

module _ (shop_id : ℕ) (kind : Reference) (reference_id : ℕ) where
  add_entries-IsBalanced :
      (lines : List Line)
      → line_debits lines ≡ line_credits lines
      → Keeps IsBalanced (add_entries shop_id kind reference_id lines)
  unfolding add_entries ◌>>=◌
  add_entries-IsBalanced lines e = record {
    at = λ s h.
        elim (Bool-cases (
          is_unique s.ledger (new_entries s.uuid4 s.now shop_id kind reference_id s.drawn lines))) [
            | inl unique ↦ rw unique (record {
              groups = λ p.
                  rw (sum_of-append, sum_of-append)
                    (ground (
                      arith,
                      h.groups p,
                      debits-new_entries s.uuid4 s.now shop_id kind reference_id p s.drawn lines,
                      credits-new_entries s.uuid4 s.now shop_id kind reference_id p s.drawn lines,
                    ));
            })
            | inr clash ↦ rw clash tt
          ];
  }

  totals_agree :
      (lines : List Line) (totals : ℤ × ℤ)
      → check_lines (pos 0) (pos 0) lines ≡ ok totals
      → eqb_ℤ totals.0 totals.1 ≡ true
      → line_debits lines ≡ line_credits lines
  totals_agree lines (d, c) e same =
      let sums : Totals (pos 0) (pos 0) lines (ok (d, c)) =
        rw e at (check_lines-Totals (pos 0) (pos 0) lines) in
      sym (+ℤ_zero (line_debits lines))
      ∙ sym sums.0
      ∙ eqb_ℤ→eq d c same
      ∙ sums.1
      ∙ +ℤ_zero (line_credits lines)

  pub post_group-IsBalanced :
      (lines : List Line) → Keeps IsBalanced (post_group shop_id kind reference_id lines)
  unfolding post_group
  post_group-IsBalanced lines = Keeps-bind _ _ (Keeps-gets _) λ already.
      Keeps-if already _ _ (Keeps-pure _) (
        Triple-lift-bind (check_lines (pos 0) (pos 0) lines) _ λ totals e.
          Keeps-guard-bind (eqb_ℤ totals.0 totals.1) _ _
            λ same. add_entries-IsBalanced lines (totals_agree lines totals e same))

delete_entries-IsBalanced : (q : Groups) → Keeps IsBalanced (delete_entries (is_in q))
unfolding delete_entries ◌>>=◌
delete_entries-IsBalanced q = record {
  at = λ s h. record {
    groups = λ p. rw (sum_of-reject, sum_of-reject) (h.groups (λ s k r. p s k r && not (q s k r)));
  };
}

pub delete_posting-IsBalanced :
    (shop_id : ℕ) (kind : Reference) (reference_id : ℕ)
    → Keeps IsBalanced (delete_posting shop_id kind reference_id)
unfolding delete_posting
delete_posting-IsBalanced shop_id kind reference_id =
    delete_entries-IsBalanced λ s k r. s == shop_id && same_reference k kind && r == reference_id

pub delete_postings_for_reference-IsBalanced :
    (shop_id reference_id : ℕ) (kinds : Option (List Reference))
    → Keeps IsBalanced (delete_postings_for_reference shop_id reference_id kinds)
unfolding delete_postings_for_reference
delete_postings_for_reference-IsBalanced shop_id reference_id kinds =
    delete_entries-IsBalanced λ s k r. s == shop_id && r == reference_id && has_type kinds k

pub new_uuid-IsBalanced : Keeps IsBalanced new_uuid
unfolding new_uuid
new_uuid-IsBalanced = record { at = λ s h. record { groups = h.groups } }

add_account-IsBalanced :
    (a : Account) → Keeps IsBalanced (modify (λ s. record s { accounts = s.accounts ++ a ∷ [] }))
unfolding modify
add_account-IsBalanced a = record { at = λ s h. record { groups = h.groups } }

ensure_account-IsBalanced :
    (shop_id : ℕ) (d : ℕ × String × AccountType) (known : List Account)
    → Keeps IsBalanced (ensure_account shop_id d known)
unfolding ensure_account
ensure_account-IsBalanced shop_id (code, name, account_type) known =
    elim (Option-cases (by_code code known)) [
      | inl missing ↦
          rw (missing, ensure_account)
            (search (keeps_rules, new_uuid-IsBalanced, add_account-IsBalanced))
      | inr (a, found) ↦ rw (found, ensure_account) (Keeps-pure known)
    ]

ensure_accounts-IsBalanced :
    (shop_id : ℕ) (defaults : List (ℕ × String × AccountType)) (known : List Account)
    → Keeps IsBalanced (ensure_accounts shop_id defaults known)
unfolding ensure_accounts
ensure_accounts-IsBalanced shop_id [] known = Keeps-pure known
ensure_accounts-IsBalanced shop_id (d ∷ defaults) known =
    Keeps-bind _ _ (ensure_account-IsBalanced shop_id d known)
      (ensure_accounts-IsBalanced shop_id defaults)

pub ensure_system_accounts-IsBalanced :
    (shop_id : ℕ) → Keeps IsBalanced (ensure_system_accounts shop_id)
unfolding ensure_system_accounts
ensure_system_accounts-IsBalanced shop_id =
    Keeps-bind _ _ (Keeps-gets _) (ensure_accounts-IsBalanced shop_id default_accounts)

pub account-IsBalanced :
    (accounts : List Account) (code : ℕ) → Keeps IsBalanced (account accounts code)
unfolding account
account-IsBalanced accounts code = Keeps-or_raise _ _
