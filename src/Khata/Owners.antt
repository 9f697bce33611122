-- ===== src/Khata/Owners.antt =====
-- A total over all rows is the sum of the totals of the rows' owners.
use kapra_os.Prelude.{
  ℕ, suc, ◌==◌, if◌then◌else◌, Bool, true, false, ◌≡◌, refl, ap, ◌∙◌, ◌&&◌, ◌||◌, Option, some,
  List, [], ◌∷◌, ℤ, pos, ◌+ℤ◌, ◌-ℤ◌, arith, int_laws, Bool-cases, inl, inr, ==_refl,
}
use kapra_os.Accounting.Group.{any_row}
use kapra_os.Accounting.Posts.{same_id}
use kapra_os.Khata.Sums.{sum_where, count_where}

unfoldable pub sum_over : List ℕ → (ℕ → ℤ) → ℤ
sum_over [] f = pos 0
sum_over (c ∷ ids) f = f c +ℤ sum_over ids f

sum_over-same :
    (ids : List ℕ) (f g : ℕ → ℤ) → ((c : ℕ) → f c ≡ g c) → sum_over ids f ≡ sum_over ids g
unfolding sum_over
sum_over-same [] f g h = refl
sum_over-same (c ∷ ids) f g h = rw (h c, sum_over-same ids f g h) refl

sum_over-minus :
    (ids : List ℕ) (f g : ℕ → ℤ) → sum_over ids (λ c. f c -ℤ g c) ≡ sum_over ids f -ℤ sum_over ids g
unfolding sum_over
sum_over-minus [] f g = omega int_laws
sum_over-minus (c ∷ ids) f g = rw (sum_over-minus ids f g) (omega int_laws)

pub sum_over-balance :
    (ids : List ℕ) (f g h : ℕ → ℤ)
    → sum_over ids (λ c. f c -ℤ g c -ℤ h c) ≡ sum_over ids f -ℤ sum_over ids g -ℤ sum_over ids h
sum_over-balance ids f g h =
    sum_over-minus ids (λ c. f c -ℤ g c) h ∙ rw (sum_over-minus ids f g) refl

zero_over : (ids : List ℕ) → sum_over ids (λ c. pos 0) ≡ pos 0
unfolding sum_over
zero_over [] = refl
zero_over (c ∷ ids) = rw (zero_over ids) (omega int_laws)

-- A row that no owner, or one owner, counts.
unhit :
    (b : ℕ → Bool) (v : ℤ) (f : ℕ → ℤ) (ids : List ℕ)
    → count_where b ids ≡ 0
    → sum_over ids (λ c. if b c then v +ℤ f c else f c) ≡ sum_over ids f
unfolding sum_over count_where
unhit b v f [] h = refl
unhit b v f (c ∷ ids) h = elim (Bool-cases (b c)) [
  | inl e ↦ ground (arith, e)
  | inr e ↦ rw e (rw (unhit b v f ids (rw e at h)) refl)
]

hit :
    (b : ℕ → Bool) (v : ℤ) (f : ℕ → ℤ) (ids : List ℕ)
    → count_where b ids ≡ 1
    → sum_over ids (λ c. if b c then v +ℤ f c else f c) ≡ v +ℤ sum_over ids f
unfolding sum_over count_where
hit b v f [] h = ground arith
hit b v f (c ∷ ids) h = elim (Bool-cases (b c)) [
  | inl e ↦ rw e (rw (unhit b v f ids (less (rw e at h))) (omega int_laws))
  | inr e ↦ rw e (rw (hit b v f ids (rw e at h)) (omega int_laws))
]
  where
    less : {n : ℕ} → suc n ≡ 1 → n ≡ 0
    less h = omega (arith, h)

count_where-same :
    {A : Type 0} (b d : A → Bool) (l : List A)
    → ((x : A) → b x ≡ d x)
    → count_where b l ≡ count_where d l
unfolding count_where
count_where-same b d [] h = refl
count_where-same b d (x ∷ l) h = rw (h x, count_where-same b d l h) refl

count_where-none : {A : Type 0} (l : List A) → count_where (λ (x : A). false) l ≡ 0
unfolding count_where
count_where-none [] = refl
count_where-none (x ∷ l) = count_where-none l

or_right : (b c : Bool) → c ≡ true → (b || c) ≡ true
or_right true c h = refl
or_right false c h = h

and_true : (b : Bool) → (b && true) ≡ b
and_true true = refl
and_true false = refl

and_false : (b : Bool) → (b && false) ≡ false
and_false true = refl
and_false false = refl

module _ {A : Type 0} (inside : A → Bool) (owner : A → Option ℕ) (p : ℕ → A → Bool) (q : A → Bool)
    (value : A → ℤ) (ids : List ℕ) where
  -- `p c` takes the rows of the owner `c`, and `q` those of every owner. Each owner that a row
  -- names stands once in `ids`.
  pub sum_over-owners :
      (l : List A)
      → ((c : ℕ) (x : A) → p c x ≡ (same_id (owner x) c && q x))
      → ((x : A) → q x ≡ true → (inside x ≡ true) × (k : ℕ) × (owner x ≡ some k))
      → ((k : ℕ)
          → any_row (λ x. inside x && same_id (owner x) k) l ≡ true
          → count_where (λ c. k == c) ids ≡ 1)
      → sum_over ids (λ c. sum_where (p c) value l) ≡ sum_where q value l
  unfolding sum_where
  sum_over-owners [] same owned once = zero_over ids
  sum_over-owners (x ∷ l) same owned once =
      let rest = sum_over-owners l same owned λ k h. once k (or_right _ _ h) in
      let others = λ (c : ℕ). sum_where (p c) value l in
      elim (Bool-cases (q x)) [
        | inl e ↦
            let counted = owned x e in
            let one = once counted.1 (rw (counted.0, counted.2, ==_refl counted.1) refl) in
            let same_row =
              count_where-same (λ c. p c x) (λ c. counted.1 == c) ids
                λ c. rw (same c x, counted.2, e) (and_true _) in
            rw e
              (hit (λ c. p c x) (value x) others ids (same_row ∙ one) ∙ ap (λ n. value x +ℤ n) rest)
        | inr e ↦
            let same_row =
              count_where-same (λ c. p c x) (λ c. false) ids λ c. rw (same c x, e) (and_false _) in
            rw e (unhit (λ c. p c x) (value x) others ids (same_row ∙ count_where-none ids) ∙ rest)
      ]
