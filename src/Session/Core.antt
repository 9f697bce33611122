-- ===== src/Session/Core.antt =====
-- A service function of backend/app/services: it reads and writes the transaction's database and
-- may raise. The caller owns the transaction and rolls back on an exception, so a raise has no
-- database beside it.
use kapra_os.Prelude.{ℕ, suc, Bool, true, false, Option, none, some}
use kapra_os.Session.Outcome.{Error, Result, ok, err}
use kapra_os.Tables.{Db}

abbrev pub Exec : Type 0 → Type 0
Exec A = Db → Result (A × Db)

module _ {A : Type 0} where
  unfoldable pub pure : A → Exec A
  pure a s = ok (a, s)

  unfoldable pub raise : Error → Exec A
  raise e s = err e

  unfoldable pub gets : (Db → A) → Exec A
  gets f s = ok (f s, s)

  -- A lookup that raises where there is nothing.
  abbrev pub or_raise : Option A → Error → Exec A
  or_raise none e = raise e
  or_raise (some a) e = pure a

  abbrev pub lift : Result A → Exec A
  lift (ok a) = pure a
  lift (err e) = raise e

unfoldable pub modify : (Db → Db) → Exec (Unit {0})
modify f s = ok (tt, f s)

abbrev pub guard : Bool → Error → Exec (Unit {0})
guard true e = pure tt
guard false e = raise e

module _ {A B : Type 0} where
  abbrev pub continue : Result (A × Db) → (A → Exec B) → Result (B × Db)
  continue (ok (a, s)) f = f a s
  continue (err e) f = err e

  infixl 10 ◌>>=◌ ◌>>◌
  unfoldable pub ◌>>=◌ : Exec A → (A → Exec B) → Exec B
  unfolding pure raise gets modify
  ◌>>=◌ m f s = continue (m s) f

  abbrev pub ◌>>◌ : Exec A → Exec B → Exec B
  m >> k = m >>= λ _. k

-- `uuid.uuid4()`
unfoldable pub new_uuid : Exec ℕ
new_uuid s = ok (s.uuid4 s.drawn, record s { drawn = suc s.drawn })
