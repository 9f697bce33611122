-- ===== src/Session/Keeps.antt =====
-- Properties of the database that a service function keeps, by the way the function is built.
use kapra_os.Prelude.{◌≡◌, refl, Bool, true, false, if◌then◌else◌, Option, none, some}
use kapra_os.Tables.{Db}
use kapra_os.Session.Outcome.{Error, Result, ok, err}
use kapra_os.Session.Core.{
  Exec, continue, pure, raise, gets, or_raise, lift, modify, guard, ◌>>=◌, ◌>>◌,
}

-- What holds of the outcome: nothing is asked of a raise, since the caller rolls back.
abbrev pub After {κ} : {A : Type 0} → (A → Db → Type κ) → Result (A × Db) → Type κ
After Q (ok (a, s)) = Q a s
After Q (err e) = Unit

-- What holds of the outcome of a run that returned.
pub After-ok {κ} :
    {A : Type 0} (Q : A → Db → Type κ) {r : Result (A × Db)} {a : A} {t : Db}
    → r ≡ ok (a, t)
    → After Q r
    → Q a t
After-ok Q e h = rw e at h

-- From a database with `P`, whatever `m` returns has `Q` with the database that it leaves.
pub record Triple {κ} {A : Type 0} (P : Db → Type κ) (m : Exec A) (Q : A → Db → Type κ)
    : Type κ where
  pub at : (s : Db) → P s → After Q (m s)

abbrev pub Keeps {κ} : {A : Type 0} → (Db → Type κ) → Exec A → Type κ
Keeps P m = Triple P m (λ _. P)

module _ {κ} {P : Db → Type κ} where
  pub Keeps-pure : {A : Type 0} (a : A) → Keeps P (pure a)
  unfolding pure
  Keeps-pure a = record { at = λ s h. h }

  pub Keeps-raise : {A : Type 0} (e : Error) → Keeps P (raise {A = A} e)
  unfolding raise
  Keeps-raise e = record { at = λ s h. tt }

  pub Keeps-gets : {A : Type 0} (f : Db → A) → Keeps P (gets f)
  unfolding gets
  Keeps-gets f = record { at = λ s h. h }

  pub Keeps-or_raise : {A : Type 0} (o : Option A) (e : Error) → Keeps P (or_raise o e)
  Keeps-or_raise none e = Keeps-raise e
  Keeps-or_raise (some a) e = Keeps-pure a

  pub Keeps-lift : {A : Type 0} (r : Result A) → Keeps P (lift r)
  Keeps-lift (ok a) = Keeps-pure a
  Keeps-lift (err e) = Keeps-raise e

  pub Keeps-guard : (b : Bool) (e : Error) → Keeps P (guard b e)
  Keeps-guard true e = Keeps-pure tt
  Keeps-guard false e = Keeps-raise e

  pub Keeps-modify : (f : Db → Db) → ((s : Db) → P s → P (f s)) → Keeps P (modify f)
  unfolding modify
  Keeps-modify f h = record { at = h }

  pub Keeps-if :
      {A : Type 0} (b : Bool) (m n : Exec A) → Keeps P m → Keeps P n → Keeps P (if b then m else n)
  Keeps-if true m n km kn = km
  Keeps-if false m n km kn = kn

module _ {κ} {A B : Type 0} where
  After-continue :
      {Q : A → Db → Type κ} {R : B → Db → Type κ} (r : Result (A × Db)) (f : A → Exec B)
      → After Q r
      → ((a : A) → Triple (Q a) (f a) R)
      → After R (continue r f)
  After-continue (ok (a, s)) f h k = (k a).at s h
  After-continue (err e) f h k = tt

module _ {κ} {A B : Type 0} {P : Db → Type κ} where
  pub Triple-bind :
      {Q : A → Db → Type κ} {R : B → Db → Type κ} (m : Exec A) (f : A → Exec B)
      → Triple P m Q
      → ((a : A) → Triple (Q a) (f a) R)
      → Triple P (m >>= f) R
  unfolding ◌>>=◌
  Triple-bind m f km kf = record { at = λ s h. After-continue (m s) f (km.at s h) kf }

  pub Keeps-bind :
      (m : Exec A) (f : A → Exec B) → Keeps P m → ((a : A) → Keeps P (f a)) → Keeps P (m >>= f)
  Keeps-bind m f km kf = Triple-bind m f km kf

  -- The same as a chain along a `do` block.
  infixr 10 ◌▹◌
  pub ◌▹◌ :
      {m : Exec A} {f : A → Exec B} → Keeps P m → ((a : A) → Keeps P (f a)) → Keeps P (m >>= f)
  ◌▹◌ {m} {f} km kf = Keeps-bind m f km kf

-- A chain of triples.
module _ {κ} {A B : Type 0} {P : Db → Type κ} {Q : A → Db → Type κ} {R : B → Db → Type κ} where
  infixr 10 ◌▹▹◌
  pub ◌▹▹◌ :
      {m : Exec A} {f : A → Exec B}
      → Triple P m Q
      → ((a : A) → Triple (Q a) (f a) R)
      → Triple P (m >>= f) R
  ◌▹▹◌ {m} {f} km kf = Triple-bind m f km kf

-- A triple with a stronger precondition, kept for what follows from the outcome.
module _ {κ} {A : Type 0} {Q R : A → Db → Type κ} where
  After-map : (r : Result (A × Db)) → ((a : A) (t : Db) → Q a t → R a t) → After Q r → After R r
  After-map (ok (a, t)) f h = f a t h
  After-map (err e) f h = tt

  pub Triple-frame :
      {P P' : Db → Type κ} {m : Exec A}
      → Triple P m Q
      → ((s : Db) → P' s → P s)
      → ((s : Db) → P' s → (a : A) (t : Db) → Q a t → R a t)
      → Triple P' m R
  Triple-frame {m} k f g = record { at = λ s h. After-map (m s) (g s h) (k.at s (f s h)) }

-- The rest of the block may use that the result was no error, or that the test passed.
module _ {κ} {B : Type 0} {P : Db → Type κ} where
  pub Triple-lift-bind :
      {A : Type 0} {Q : B → Db → Type κ} (r : Result A) (f : A → Exec B)
      → ((a : A) → r ≡ ok a → Triple P (f a) Q)
      → Triple P (lift r >>= f) Q
  unfolding ◌>>=◌
  Triple-lift-bind (ok a) f k = record { at = (k a refl).at }
  Triple-lift-bind (err e) f k = record { at = λ s h. tt }

  pub Triple-or_raise-bind :
      {A : Type 0} {Q : B → Db → Type κ} (o : Option A) (e : Error) (f : A → Exec B)
      → ((a : A) → o ≡ some a → Triple P (f a) Q)
      → Triple P (or_raise o e >>= f) Q
  unfolding ◌>>=◌
  Triple-or_raise-bind (some a) e f k = record { at = (k a refl).at }
  Triple-or_raise-bind none e f k = record { at = λ s h. tt }

  pub Triple-guard-bind :
      {Q : B → Db → Type κ} (b : Bool) (e : Error) (m : Exec B)
      → (b ≡ true → Triple P m Q)
      → Triple P (guard b e >> m) Q
  unfolding ◌>>=◌
  Triple-guard-bind true e m k = record { at = (k refl).at }
  Triple-guard-bind false e m k = record { at = λ s h. tt }

  pub Keeps-guard-bind :
      (b : Bool) (e : Error) (m : Exec B) → (b ≡ true → Keeps P m) → Keeps P (guard b e >> m)
  Keeps-guard-bind b e m k = Triple-guard-bind b e m k

pub ruleset keeps_rules = (
  Keeps-pure, Keeps-raise, Keeps-gets, Keeps-or_raise, Keeps-lift, Keeps-guard, Keeps-if,
  Keeps-bind,
)
