-- ===== src/Sales/Rows.antt =====
-- Writing a changed sale over its row: what reads neither the paid amount nor the status that
-- changed sees no difference.
use kapra_os.Prelude.{
  ℕ, ◌==◌, Bool, true, false, ◌≡◌, refl, sym, ◌∙◌, ◌&&◌, ◌||◌, some, List, [], ◌∷◌, ℤ, arith,
  Bool-cases, inl, inr, ==_iff,
}
use kapra_os.Tables.{Sale}
use kapra_os.Accounting.Group.{any_row}
use kapra_os.Sales.Edit.{find_sale, put_sale}
use kapra_os.Khata.Sums.{sum_where}

-- The primary key of `sales`.
abbrev pub IsKeyed : List Sale → Type 0
IsKeyed [] = Unit
IsKeyed (x ∷ sales) = (any_row (λ y. y.id == x.id) sales ≡ false) × IsKeyed sales

found_row :
    (shop_id id : ℕ) (sales : List Sale) (x : Sale)
    → find_sale shop_id id sales ≡ some x
    → any_row (λ y. y.id == id) sales ≡ true
found_row shop_id id [] x e = ground arith
found_row shop_id id (z ∷ sales) x e = elim (Bool-cases (z.id == id)) [
  | inl f ↦ rw f refl
  | inr f ↦ rw f (found_row shop_id id sales x (rw f at e))
]

some_same : {x y : Sale} → some x ≡ some y → x ≡ y
some_same h = cc

both : (a b : Bool) → (a && b) ≡ true → (a ≡ true) × (b ≡ true)
both true true h = (refl, refl)
both true false h = ground arith
both false b h = ground arith

pub found_id :
    (shop_id id : ℕ) (sales : List Sale) (x : Sale)
    → find_sale shop_id id sales ≡ some x
    → (x.id ≡ id) × (x.shop_id ≡ shop_id)
found_id shop_id id [] x e = ground arith
found_id shop_id id (z ∷ sales) x e = elim (Bool-cases (z.id == id && z.shop_id == shop_id)) [
  | inl f ↦
      let same : z ≡ x = some_same (rw f at e) in
      let ids = both (z.id == id) (z.shop_id == shop_id) f in
      rw (← same) ((==_iff z.id id).0 ids.0, (==_iff z.shop_id shop_id).0 ids.1)
  | inr f ↦ found_id shop_id id sales x (rw f at e)
]

distinct : true ≡ false → ⊥
distinct h = ground arith

or_right : (b c : Bool) → c ≡ true → (b || c) ≡ true
or_right true c h = refl
or_right false c h = h

-- One row is exchanged for another.
pub data Exchanged (x y : Sale) : List Sale → List Sale → Type 0 where
  here : {l : List Sale} → Exchanged x y (x ∷ l) (y ∷ l)
  there : (z : Sale) {l m : List Sale} → Exchanged x y l m → Exchanged x y (z ∷ l) (z ∷ m)

unequal : (a b : Bool) → a ≡ true → (a && b) ≡ false → b ≡ false
unequal a b h k = ground arith

-- A sale that was found is the row that `put_sale` writes over.
pub put_sale-Exchanged :
    (shop_id id : ℕ) (x y : Sale) (sales : List Sale)
    → IsKeyed sales
    → find_sale shop_id id sales ≡ some x
    → y.id ≡ id
    → Exchanged x y sales (put_sale y sales)
put_sale-Exchanged shop_id id x y [] k e i = ground arith
put_sale-Exchanged shop_id id x y (z ∷ sales) k e i =
    elim (Bool-cases (z.id == id && z.shop_id == shop_id)) [
      | inl f ↦
          let same : z ≡ x = some_same (rw f at e) in
          let ids = both (z.id == id) (z.shop_id == shop_id) f in
          let hit : (z.id == y.id) ≡ true = rw i ids.0 in rw (hit, same) here
      | inr f ↦
          let rest = rw f at e in
          elim (Bool-cases (z.id == id)) [
            | inl g ↦
                let one = found_row shop_id id sales x rest in
                let none_left = rw ((==_iff z.id id).0 g) at k.0 in
                absurd (distinct (sym one ∙ none_left))
            | inr g ↦
                let other : (z.id == y.id) ≡ false = rw i g in
                rw other (there z (put_sale-Exchanged shop_id id x y sales k.1 rest i))
          ]
    ]

module _ {x y : Sale} where
  pub Exchanged-sum :
      (q : Sale → Bool) (value : Sale → ℤ) {l m : List Sale}
      → Exchanged x y l m
      → q y ≡ q x
      → value y ≡ value x
      → sum_where q value m ≡ sum_where q value l
  unfolding sum_where
  Exchanged-sum q value here a b = rw (a, b) refl
  Exchanged-sum q value (there z r) a b = rw (Exchanged-sum q value r a b) refl

  pub Exchanged-any :
      (q : Sale → Bool) {l m : List Sale}
      → Exchanged x y l m
      → q y ≡ q x
      → any_row q m ≡ any_row q l
  Exchanged-any q here a = rw a refl
  Exchanged-any q (there z r) a = rw (Exchanged-any q r a) refl

  pub Exchanged-has :
      (q : Sale → Bool) {l m : List Sale} → Exchanged x y l m → q x ≡ true → any_row q l ≡ true
  Exchanged-has q here h = rw h refl
  Exchanged-has q (there z r) h = or_right (q z) _ (Exchanged-has q r h)
