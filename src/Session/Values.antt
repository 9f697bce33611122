-- ===== src/Session/Values.antt =====
-- Properties of what a service function returns, whatever the database.
use kapra_os.Prelude.{◌≡◌, refl, ap, Bool, true, false}
use kapra_os.Tables.{Db}
use kapra_os.Session.Outcome.{Error, Result, ok, err}
use kapra_os.Session.Core.{Exec, gets, pure, raise, lift, guard, ◌>>=◌}
use kapra_os.Session.Keeps.{Triple, After, Triple-bind}

-- Whatever `m` returns has `Q`.
abbrev pub Returns {κ} : {A : Type 0} → Exec A → (A → Type κ) → Type κ
Returns m Q = Triple (λ s. Unit) m (λ a s. Q a)

module _ {κ} {A : Type 0} where
  pub Returns-pure : {Q : A → Type κ} (a : A) → Q a → Returns (pure a) Q
  unfolding pure
  Returns-pure a q = record { at = λ s h. q }

  After-any : (r : Result (A × Db)) → After {κ} (λ a s. Unit) r
  After-any (ok (a, s)) = tt
  After-any (err e) = tt

  Triple-any : (m : Exec A) → Triple {κ} (λ s. Unit) m (λ a s. Unit)
  Triple-any m = record { at = λ s h. After-any (m s) }

module _ {κ} {B : Type 0} {R : B → Type κ} where
  pub Triple-assume : {m : Exec B} (F : Type κ) → (F → Returns m R) → Triple (λ s. F) m (λ b s. R b)
  Triple-assume F k = record { at = λ s h. (k h).at s tt }

  -- A step about whose result nothing is asked.
  pub Returns-skip :
      {A : Type 0} (m : Exec A) (f : A → Exec B) → ((a : A) → Returns (f a) R) → Returns (m >>= f) R
  Returns-skip m f k = Triple-bind m f (Triple-any m) k

  pub Returns-bind :
      {A : Type 0} {Q : A → Type κ} (m : Exec A) (f : A → Exec B)
      → Returns m Q
      → ((a : A) → Q a → Returns (f a) R)
      → Returns (m >>= f) R
  Returns-bind {Q} m f km kf = Triple-bind m f km λ a. Triple-assume (Q a) (kf a)

-- A lifted result, and a test, that did not raise.
pub Returns-lift : {A : Type 0} (r : Result A) → Returns (lift r) (λ a. r ≡ ok a)
unfolding raise
Returns-lift (ok a) = Returns-pure a refl
Returns-lift (err e) = record { at = λ s h. tt }

pub Returns-guard : (b : Bool) (e : Error) → Returns (guard b e) (λ x. b ≡ true)
unfolding raise
Returns-guard true e = Returns-pure tt refl
Returns-guard false e = record { at = λ s h. tt }

-- A property of the database with a fact about the values so far.
pub record Also {κ} (P : Db → Type κ) (F : Type κ) (s : Db) : Type κ where
  pub base : P s
  pub fact : F

module _ {κ} {A : Type 0} {P : Db → Type κ} {m : Exec A} {Q : A → Db → Type κ} where
  pub Triple-given : {F : Type κ} → (F → Triple P m Q) → Triple (Also P F) m Q
  Triple-given k = record { at = λ s h. (k h.fact).at s h.base }

-- A read of a known database.
pub gets-same :
    {A : Type 0} (s : Db) (f : Db → A)
    → Triple (λ u. u ≡ s) (gets f) (λ a. Also (λ u. u ≡ s) (a ≡ f s))
unfolding gets
gets-same s f = record { at = λ u e. record { base = e; fact = ap f e } }
