-- ===== src/Khata/Sums.antt =====
-- The aggregates `SUM`, `COUNT` and `MAX` of a query over the rows that a filter takes.
use kapra_os.Prelude.{
  ℕ, suc, ltb, if◌then◌else◌, Bool, true, false, ◌≡◌, refl, ◌&&◌, not, Option, none, some, List, [],
  ◌∷◌, ◌++◌, ℤ, pos, ◌+ℤ◌, arith, int_laws,
}

abbrev pub later : ℕ → Option ℕ → ℕ
later t none = t
later t (some u) = if ltb t u then u else t

module _ {A : Type 0} where
  -- `_money(SUM(value))`, which is zero where there is no row.
  unfoldable pub sum_where : (A → Bool) → (A → ℤ) → List A → ℤ
  sum_where q value [] = pos 0
  sum_where q value (x ∷ rows) =
      let others = sum_where q value rows in if q x then value x +ℤ others else others

  unfoldable pub count_where : (A → Bool) → List A → ℕ
  count_where q [] = 0
  count_where q (x ∷ rows) = let others = count_where q rows in if q x then suc others else others

  unfoldable pub latest_where : (A → Bool) → (A → ℕ) → List A → Option ℕ
  latest_where q time [] = none
  latest_where q time (x ∷ rows) =
      let others = latest_where q time rows in if q x then some (later (time x) others) else others

module _ {A : Type 0} where
  pub sum_where-append :
      (q : A → Bool) (value : A → ℤ) (l : List A) (x : A)
      → sum_where q value (l ++ x ∷ [])
        ≡ (if q x then sum_where q value l +ℤ value x else sum_where q value l)
  unfolding sum_where
  sum_where-append q value [] x = grind (arith, int_laws)
  sum_where-append q value (y ∷ l) x = grind (arith, int_laws, sum_where-append q value l x)

  -- Two filters that agree on every row.
  pub sum_where-same :
      (p q : A → Bool) (value : A → ℤ) (l : List A)
      → ((x : A) → p x ≡ q x)
      → sum_where p value l ≡ sum_where q value l
  unfolding sum_where
  sum_where-same p q value [] h = refl
  sum_where-same p q value (x ∷ l) h = rw (h x, sum_where-same p q value l h) refl

  -- A filter split by a second test.
  pub sum_where-split :
      (q d : A → Bool) (value : A → ℤ) (l : List A)
      → sum_where (λ x. q x && d x) value l +ℤ sum_where (λ x. q x && not (d x)) value l
        ≡ sum_where q value l
  unfolding sum_where
  sum_where-split q d value [] = omega int_laws
  sum_where-split q d value (x ∷ l) =
      split_row (q x) (d x) (value x) _ _ _ (sum_where-split q d value l)
    where
      split_row :
          (b c : Bool) (v m n k : ℤ)
          → m +ℤ n ≡ k
          → (if b && c then v +ℤ m else m) +ℤ (if b && not c then v +ℤ n else n)
            ≡ (if b then v +ℤ k else k)
      split_row true true v m n k h = rw (← h) (omega int_laws)
      split_row true false v m n k h = rw (← h) (omega int_laws)
      split_row false c v m n k h = h
