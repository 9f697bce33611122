-- ===== src/Accounting/Books/Once.antt =====
-- A business event is posted once.
use kapra_os.Prelude.{
  ℕ, ◌≡◌, ◌≢◌, refl, Bool, true, false, ◌||◌, List, [], ◌∷◌, ◌++◌, arith, pos, eqb_ℤ, Bool-cases,
  inl, inr, ==_refl, eqb_ℤ-ne, ◌∙◌,
}
use kapra_os.Tables.{Db, LedgerEntry, Reference, reference_tag}
use kapra_os.Session.{Exec, ok, err, Error, lift, guard, ◌>>=◌, ◌>>◌}
use kapra_os.Session.Keeps.{Triple, After, After-ok, Triple-bind, Triple-guard-bind, Keeps-lift}
use kapra_os.Accounting.Group.{
  Line, any_row, in_group, check_lines, new_entries, is_unique, add_entries, post_group,
}
use kapra_os.Accounting.Books.Lines.{All, IsValidLine, check_valid}
use kapra_os.Accounting.Books.Sums.{line_debits, line_credits, +ℤ_zero}

any_row-append {ℓ} :
    {A : Type ℓ} (p : A → Bool) (l m : List A) → any_row p (l ++ m) ≡ (any_row p l || any_row p m)
any_row-append p [] m = refl
any_row-append p (x ∷ l) m = ground (arith, any_row-append p l m)

||-true : (b : Bool) → (b || true) ≡ true
||-true true = refl
||-true false = refl

module _ (shop_id : ℕ) (kind : Reference) (reference_id : ℕ) where
  abbrev is_posted : Db → Bool
  is_posted s = any_row (in_group shop_id kind reference_id) s.ledger

  in_group-new_entries :
      (uuid4 : ℕ → ℕ) (now n : ℕ) (line : Line) (lines : List Line)
      → any_row
          (in_group shop_id kind reference_id)
          (new_entries uuid4 now shop_id kind reference_id n (line ∷ lines))
        ≡ true
  unfolding new_entries
  in_group-new_entries uuid4 now n line lines =
      rw (==_refl shop_id, ==_refl reference_id, ==_refl (reference_tag kind)) refl

  abbrev Posted : List LedgerEntry → Db → Type 0
  Posted entries t = is_posted t ≡ true

  add_entries-Posted :
      (line : Line) (lines : List Line)
      → Triple (λ s. Unit) (add_entries shop_id kind reference_id (line ∷ lines)) Posted
  unfolding add_entries ◌>>=◌
  add_entries-Posted line lines = record {
    at = λ s h.
        let new = new_entries s.uuid4 s.now shop_id kind reference_id s.drawn (line ∷ lines) in
        let held = in_group-new_entries s.uuid4 s.now s.drawn line lines in
        elim (Bool-cases (is_unique s.ledger new)) [
          | inl unique ↦
              rw (unique, any_row-append, held) (||-true (any_row (in_group _ _ _) s.ledger))
          | inr clash ↦ rw clash tt
        ];
  }

  -- What `_post_group` does for a reference that has no rows.
  abbrev post_new : List Line → Exec (List LedgerEntry)
  post_new lines = do
    totals ← lift (check_lines (pos 0) (pos 0) lines)
    guard (eqb_ℤ totals.0 totals.1) Error.unbalanced_posting
    add_entries shop_id kind reference_id lines

  post_new-Posted :
      (line : Line) (lines : List Line) → Triple (λ s. Unit) (post_new (line ∷ lines)) Posted
  post_new-Posted line lines =
      Triple-bind _ _ (Keeps-lift _)
        λ totals. Triple-guard-bind (eqb_ℤ totals.0 totals.1) _ _ λ _. add_entries-Posted line lines

  post_group-new :
      (lines : List Line) (s : Db)
      → is_posted s ≡ false
      → post_group shop_id kind reference_id lines s ≡ post_new lines s
  unfolding post_group ◌>>=◌
  post_group-new lines s new = rw new refl

  post_group-old :
      (lines : List Line) (s : Db)
      → is_posted s ≡ true
      → post_group shop_id kind reference_id lines s ≡ ok ([], s)
  unfolding post_group ◌>>=◌
  post_group-old lines s old = rw old refl

  post_group-Posted :
      (line : Line) (lines : List Line) (s : Db)
      → After Posted (post_group shop_id kind reference_id (line ∷ lines) s)
  post_group-Posted line lines s = elim (Bool-cases (is_posted s)) [
    | inl old ↦ rw (post_group-old (line ∷ lines) s old) old
    | inr new ↦ rw (post_group-new (line ∷ lines) s new) ((post_new-Posted line lines).at s tt)
  ]

  -- Once a group with a line has been posted, posting the same reference again, with any lines,
  -- succeeds, returns no entries and changes nothing.
  pub post_group-twice :
      (line : Line) (lines again : List Line) (s t : Db) {entries : List LedgerEntry}
      → post_group shop_id kind reference_id (line ∷ lines) s ≡ ok (entries, t)
      → post_group shop_id kind reference_id again t ≡ ok ([], t)
  post_group-twice line lines again s t h =
      post_group-old again t (After-ok Posted h (post_group-Posted line lines s))

  -- For a reference with no rows yet, lines that are each one positive debit or one positive credit
  -- are refused with UnbalancedPostingError where their sums differ.
  pub post_group-unbalanced :
      (lines : List Line) (s : Db)
      → any_row (in_group shop_id kind reference_id) s.ledger ≡ false
      → All IsValidLine lines
      → line_debits lines ≢ line_credits lines
      → post_group shop_id kind reference_id lines s ≡ err Error.unbalanced_posting
  unfolding ◌>>=◌
  post_group-unbalanced lines s new valid differ =
      post_group-new lines s new
      ∙ rw (check_valid (pos 0) (pos 0) lines valid, +ℤ_zero, +ℤ_zero) (refused (eqb_ℤ-ne differ))
    where
      refused :
          {b : Bool}
          → b ≡ false
          → (guard b Error.unbalanced_posting >> add_entries shop_id kind reference_id lines) s
            ≡ err Error.unbalanced_posting
      refused e = rw e refl
