-- ===== src/Session.antt =====
-- A database session (backend/app/db/session.py, SQLAlchemy's AsyncSession as the services use it):
-- what is committed, and what this transaction sees, flushed writes included. An action returns or
-- raises, and the session that it leaves comes back in both cases. Queries are read as SQL says:
-- a `where` filters the rows of a table, `session.get` finds the row of a key, a write to a loaded
-- object changes its row.
pub mod Laws
use interview_trainer.Prelude.{List, [], ◌∷◌, ◌++◌, Option, none, some, Bool, if◌then◌else◌}
use interview_trainer.Exceptions.{Error, Result, ok, err}
use interview_trainer.Float.{Float}
use interview_trainer.Models.{Database}

pub record Session (fl : Float) : Type 0 where
  pub committed : Database fl
  pub current : Database fl

-- `update t set … where p`, and the write to a loaded object by its key
unfoldable pub update {ℓ} : {A : Type ℓ} → (A → Bool) → (A → A) → List A → List A
update p f [] = []
update p f (x ∷ xs) = (if p x then f x else x) ∷ update p f xs

abbrev pub Action {ℓ} : Float → Type ℓ → Type ℓ
Action fl A = Session fl → Result Error A × Session fl

module _ {fl : Float} where
  unfoldable pub pure {ℓ} : {A : Type ℓ} → A → Action fl A
  pure a s = (ok a, s)

  unfoldable pub raise {ℓ} : {A : Type ℓ} → Error → Action fl A
  raise e s = (err e, s)

  -- a computation that may raise and does not touch the session
  unfoldable pub lift {ℓ} : {A : Type ℓ} → Result Error A → Action fl A
  lift r s = (r, s)

  -- a query
  unfoldable pub query {ℓ} : {A : Type ℓ} → (Database fl → A) → Action fl A
  query f s = (ok (f s.current), s)

  -- a write that is flushed
  unfoldable pub write : (Database fl → Database fl) → Action fl (Unit {0})
  write f s = (ok tt, record s { current = f s.current })

  -- `session.commit()`
  unfoldable pub commit : Action fl (Unit {0})
  commit s = (ok tt, record s { committed = s.current })

  -- `session.rollback()`
  unfoldable pub rollback : Action fl (Unit {0})
  rollback s = (ok tt, record s { current = s.committed })

  abbrev continue {ℓ κ} :
      {A : Type ℓ} {B : Type κ}
      → Result Error A
      → (A → Action fl B)
      → Session fl
      → Result Error B × Session fl
  continue (ok a) f s = f a s
  continue (err e) f s = (err e, s)

  infixl 5 ◌>>=◌ ◌>>◌
  unfoldable pub ◌>>=◌ {ℓ κ} :
      {A : Type ℓ} {B : Type κ} → Action fl A → (A → Action fl B) → Action fl B
  unfolding pure raise lift query write commit rollback
  ◌>>=◌ m f s = let (r, s') = m s in continue r f s'

  abbrev pub ◌>>◌ {κ} : {B : Type κ} → Action fl (Unit {0}) → Action fl B → Action fl B
  m >> n = m >>= λ _. n
