-- ===== src/Returns/Quantities.antt =====
-- The quantities of a return that passed the checks.
use kapra_os.Prelude.{
  ℕ, ◌==◌, ◌≡◌, ◌≢◌, sym, ◌∙◌, refl, if◌then◌else◌, ◌⊎◌, inl, inr, some, List, [], ◌∷◌, arith, ℤ,
  pos, ◌+ℤ◌, ◌-ℤ◌, ◌≤ℤ◌, int_laws, ==_iff, ltb_ℤ, Option-cases, Bool-cases, ltb_ℤ→le,
}
use kapra_os.Tables.{Sale, SaleItem, SaleReturn}
use kapra_os.Session.Outcome.{Error, ok, err, Result-cases}
use kapra_os.Returns.Lines.{
  ReturnLineInput, Quantities, add_quantity, normalise_quantity, combine_from, combine_lines,
}
use kapra_os.Returns.SaleLines.{
  PreparedLine, find_item, price_line, prepare_line, prepare_lines, returned_quantity,
}

-- What all entries ask of an item, and what the first one does.
unfoldable pub asked : ℕ → Quantities → ℤ
asked id [] = pos 0
asked id ((i, q) ∷ rest) = let others = asked id rest in if i == id then q +ℤ others else others

unfoldable pub first_asked : ℕ → Quantities → ℤ
first_asked id [] = pos 0
first_asked id ((i, q) ∷ rest) = if i == id then q else first_asked id rest

-- Each item has one entry.
abbrev pub AreCombined : Quantities → Type 0
AreCombined c = (id : ℕ) → asked id c ≡ first_asked id c

asked-add :
    (j : ℕ) (c : Quantities) (id : ℕ) (q : ℤ)
    → asked j (add_quantity c id q) ≡ (if id == j then asked j c +ℤ q else asked j c)
unfolding asked
asked-add j [] id q = grind (arith, int_laws)
asked-add j ((i, p) ∷ rest) id q = grind (arith, int_laws, asked-add j rest id q, ==_iff i id)

first_asked-add :
    (j : ℕ) (c : Quantities) (id : ℕ) (q : ℤ)
    → first_asked j (add_quantity c id q)
      ≡ (if id == j then first_asked j c +ℤ q else first_asked j c)
unfolding first_asked
first_asked-add j [] id q = grind (arith, int_laws)
first_asked-add j ((i, p) ∷ rest) id q =
    grind (arith, int_laws, first_asked-add j rest id q, ==_iff i id)

add_quantity-AreCombined :
    (c : Quantities) (id : ℕ) (q : ℤ) → AreCombined c → AreCombined (add_quantity c id q)
add_quantity-AreCombined c id q h j = rw (asked-add, first_asked-add, h j) refl

none_asked : AreCombined []
unfolding asked first_asked
none_asked j = refl

ok_same : {A : Type 0} {a b : A} → ok a ≡ ok b → a ≡ b
ok_same h = cc

some_same : {A : Type 0} {a b : A} → some a ≡ some b → a ≡ b
some_same h = cc

ok_err : {A : Type 0} {x : Error} {a : A} → ok a ≢ err x
ok_err h = cc

combine_from-AreCombined :
    (lines : List ReturnLineInput) (c d : Quantities)
    → AreCombined c
    → combine_from c lines ≡ ok d
    → AreCombined d
unfolding combine_from
combine_from-AreCombined [] c d h e = rw (← ok_same e) h
combine_from-AreCombined (line ∷ lines) c d h e =
    elim (Result-cases (normalise_quantity line.quantity)) [
      | inl (q, p) ↦
          combine_from-AreCombined lines (add_quantity c line.item_id q) d
            (add_quantity-AreCombined c line.item_id q h) (rw p at e)
      | inr (x, p) ↦ absurd (ok_err (sym (rw p at e)))
    ]

-- What the prepared lines return of an item.
unfoldable pub line_quantity : ℕ → List PreparedLine → ℤ
line_quantity id [] = pos 0
line_quantity id (x ∷ lines) =
    let others = line_quantity id lines in if x.item.id == id then x.quantity +ℤ others else others

find_item-id :
    (id : ℕ) (items : List SaleItem) (x : SaleItem) → find_item id items ≡ some x → x.id ≡ id
find_item-id id [] x h = ground arith
find_item-id id (y ∷ items) x h = ground (arith, find_item-id id items x)

module _ (sale : Sale) (returns : List SaleReturn) where
  -- What a line that was accepted has.
  prepare_line-ok :
      (id : ℕ) (q : ℤ) (x : PreparedLine)
      → prepare_line sale returns id q ≡ ok x
      → (x.item.id ≡ id)
        × (x.quantity ≡ q)
        × (find_item id sale.items ≡ some x.item)
        × (q ≤ℤ x.item.quantity -ℤ returned_quantity sale.id id returns)
  unfolding prepare_line price_line
  prepare_line-ok id q x h = elim (Option-cases (find_item id sale.items)) [
    | inl missing ↦ absurd (ok_err (sym (rw (missing, prepare_line) at h)))
    | inr (item, found) ↦
        let own = find_item-id id sale.items item found in
        elim (Bool-cases (ltb_ℤ (item.quantity -ℤ returned_quantity sale.id id returns) q)) [
          | inl over ↦ absurd (ok_err (sym (rw over at (rw (found, prepare_line) at h))))
          | inr fits ↦
              let e = ok_same (rw fits at (rw (found, prepare_line) at h)) in
              rw (← e) (
                own,
                refl,
                found,
                ltb_ℤ→le (item.quantity -ℤ returned_quantity sale.id id returns) q fits,
              )
        ]
  ]

  prepare_lines-asked :
      (combined : Quantities) (lines : List PreparedLine)
      → prepare_lines sale returns combined ≡ ok lines
      → (id : ℕ) → line_quantity id lines ≡ asked id combined
  unfolding prepare_lines line_quantity asked
  prepare_lines-asked [] lines h id = rw (← ok_same h) refl
  prepare_lines-asked ((i, q) ∷ rest) lines h id =
      elim (Result-cases (prepare_line sale returns i q)) [
        | inr (x, p) ↦ absurd (ok_err (sym (rw p at h)))
        | inl (line, p) ↦ elim (Result-cases (prepare_lines sale returns rest)) [
          | inr (x, p') ↦ absurd (ok_err (sym (rw p' at (rw p at h))))
          | inl (later, p') ↦
              let same = ok_same (rw p' at (rw p at h)) in
              let own = prepare_line-ok i q line p in
              let ih = prepare_lines-asked rest later p' id in
              rw (← same) (rw (own.0, own.1, ih) refl)
        ]
      ]

  -- The first entry of an item was within what remained of it.
  prepare_lines-fits :
      (combined : Quantities) (lines : List PreparedLine)
      → prepare_lines sale returns combined ≡ ok lines
      → (id : ℕ) (item : SaleItem) → find_item id sale.items ≡ some item
      → (first_asked id combined ≡ pos 0)
        ⊎ (first_asked id combined ≤ℤ item.quantity -ℤ returned_quantity sale.id id returns)
  unfolding prepare_lines first_asked
  prepare_lines-fits [] lines h id item found = inl refl
  prepare_lines-fits ((i, q) ∷ rest) lines h id item found =
      elim (Result-cases (prepare_line sale returns i q)) [
        | inr (x, p) ↦ absurd (ok_err (sym (rw p at h)))
        | inl (line, p) ↦ elim (Result-cases (prepare_lines sale returns rest)) [
          | inr (x, p') ↦ absurd (ok_err (sym (rw p' at (rw p at h))))
          | inl (later, p') ↦
              let own = prepare_line-ok i q line p in
              let ih = prepare_lines-fits rest later p' id item found in
              elim (Bool-cases (i == id)) [
                | inl e ↦
                    let i_id : i ≡ id = (==_iff i id).0 e in
                    let same : line.item ≡ item = some_same (sym (rw i_id at own.2) ∙ found) in
                    rw e (inr (rw (← i_id, ← same) own.3))
                | inr e ↦ rw e ih
              ]
        ]
      ]

  -- So what the lines return of an item of the sale is nothing, or within what remains of it.
  pub prepare_lines-limit :
      (lines_in : List ReturnLineInput) (combined : Quantities) (lines : List PreparedLine)
      → combine_lines lines_in ≡ ok combined
      → prepare_lines sale returns combined ≡ ok lines
      → (id : ℕ) (item : SaleItem) → find_item id sale.items ≡ some item
      → (line_quantity id lines ≡ pos 0)
        ⊎ (line_quantity id lines ≤ℤ item.quantity -ℤ returned_quantity sale.id id returns)
  unfolding combine_lines
  prepare_lines-limit lines_in combined lines c h id item found =
      let one = combine_from-AreCombined lines_in [] combined none_asked c id in
      rw (prepare_lines-asked combined lines h id, one)
        (prepare_lines-fits combined lines h id item found)
