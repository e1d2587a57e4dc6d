-- ===== src/Shared/Database.antt =====
-- How a service talks to PostgreSQL, which is not part of this code: what the handlers rely on is
-- its documented behaviour. A statement on the pool commits by itself. A statement on the client of
-- an open transaction changes only what that client sees, until `COMMIT`. A statement that fails in
-- a transaction aborts it: later statements of the client fail, and `COMMIT` then rolls back.
--
-- Which statements fail for reasons of their own (a lost connection, say) is `faults`: one Boolean
-- for each statement to come, and no failure when the list is used up.
pub mod Atomicity
pub mod Progress
use banking_platform.Base.{Bool, true, false, Option, none, some, List, [], ◌∷◌}
use banking_platform.Shared.Errors.{Error, database, Result, ok, err}

pub record Session (Db : Type 0) : Type 0 where
  -- the committed tables
  pub db : Db
  -- the tables as the open transaction sees them
  pub view : Db
  pub aborted : Bool
  pub faults : List Bool

-- A statement: `none` is a violated constraint.
abbrev pub Statement : Type 0 → Type 0 → Type 0
Statement Db A = Db → Option (A × Db)

abbrev pub Action : Type 0 → Type 0 → Type 0
Action Db A = Session Db → Result A × Session Db

abbrev pub pure : {Db A : Type 0} → A → Action Db A
pure a s = (ok a, s)

abbrev pub throw : {Db A : Type 0} → Error → Action Db A
throw e s = (err e, s)

-- What follows a call by how the call ended.
abbrev pub and_then :
    {Db A B : Type 0} → Result A × Session Db → (A → Action Db B) → Result B × Session Db
and_then (ok a, s) f = f a s
and_then (err e, s) f = (err e, s)

infixl 5 ◌>>=◌ ◌>>◌
abbrev pub ◌>>=◌ : {Db A B : Type 0} → Action Db A → (A → Action Db B) → Action Db B
◌>>=◌ m f s = and_then (m s) f

abbrev pub ◌>>◌ : {Db B : Type 0} → Action Db (Unit {0}) → Action Db B → Action Db B
m >> k = m >>= λ _. k

-- `try { … } catch (error) { handler }`.
abbrev pub or_catch :
    {Db A : Type 0} → Result A × Session Db → (Error → Action Db A) → Result A × Session Db
or_catch (ok a, s) handler = (ok a, s)
or_catch (err e, s) handler = handler e s

abbrev pub try_catch : {Db A : Type 0} → Action Db A → (Error → Action Db A) → Action Db A
try_catch m handler s = or_catch (m s) handler

-- Whether the next statement fails, and the faults after it.
abbrev pub next_fault : List Bool → Bool × List Bool
next_fault [] = (false, [])
next_fault (b ∷ bs) = (b, bs)

module _ {Db A : Type 0} where
  -- What a statement on the committed tables does; the open transaction sees it too.
  abbrev pub run_pool : Option (A × Db) → Option (A × Db) → Session Db → Result A × Session Db
  run_pool none _ s = (err database, s)
  run_pool (some (a, db')) none s = (ok a, record s { db = db' })
  run_pool (some (a, db')) (some (_, view')) s = (ok a, record s { db = db'; view = view' })

  abbrev pub step_pool : Bool × List Bool → Statement Db A → Action Db A
  step_pool (true, rest) f s = (err database, record s { faults = rest })
  step_pool (false, rest) f s = run_pool (f s.db) (f s.view) (record s { faults = rest })

  -- `pool.query(…)`.
  unfoldable pub on_pool : Statement Db A → Action Db A
  on_pool f s = step_pool (next_fault s.faults) f s

  abbrev pub run_client : Option (A × Db) → Session Db → Result A × Session Db
  run_client none s = (err database, record s { aborted = true })
  run_client (some (a, view')) s = (ok a, record s { view = view' })

  abbrev pub step_client : Bool → Bool × List Bool → Statement Db A → Action Db A
  step_client true (_, rest) f s = (err database, record s { faults = rest })
  step_client false (true, rest) f s = (err database, record s { aborted = true; faults = rest })
  step_client false (false, rest) f s = run_client (f s.view) (record s { faults = rest })

  -- `client.query(…)` in an open transaction.
  unfoldable pub on_client : Statement Db A → Action Db A
  on_client f s = step_client s.aborted (next_fault s.faults) f s

module _ {Db : Type 0} where
  abbrev pub step_begin : Bool × List Bool → Action Db (Unit {0})
  step_begin (true, rest) s = (err database, record s { faults = rest })
  step_begin (false, rest) s = (ok tt, record s { view = s.db; aborted = false; faults = rest })

  abbrev pub step_connect : Bool × List Bool → Action Db (Unit {0})
  step_connect (true, rest) s = (err database, record s { faults = rest })
  step_connect (false, rest) s = (ok tt, record s { faults = rest })

  -- `pool.connect()`.
  unfoldable pub connect : Action Db (Unit {0})
  connect s = step_connect (next_fault s.faults) s

  -- `BEGIN`.
  unfoldable pub begin : Action Db (Unit {0})
  begin s = step_begin (next_fault s.faults) s

  abbrev pub step_commit : Bool → Bool × List Bool → Action Db (Unit {0})
  step_commit aborted (true, rest) s = (err database, record s { faults = rest })
  step_commit true (false, rest) s =
      (ok tt, record s { view = s.db; aborted = false; faults = rest })
  step_commit false (false, rest) s = (ok tt, record s { db = s.view; faults = rest })

  -- `COMMIT`.
  unfoldable pub commit : Action Db (Unit {0})
  commit s = step_commit s.aborted (next_fault s.faults) s

  abbrev pub step_rollback : Bool × List Bool → Action Db (Unit {0})
  step_rollback (true, rest) s =
      (err database, record s { view = s.db; aborted = false; faults = rest })
  step_rollback (false, rest) s = (ok tt, record s { view = s.db; aborted = false; faults = rest })

  -- `ROLLBACK`; if it fails, the connection is released and its changes are lost all the same.
  unfoldable pub rollback : Action Db (Unit {0})
  rollback s = step_rollback (next_fault s.faults) s

-- `pool.connect()`, then `BEGIN` and the body, which ends with its `COMMIT`, in a `try` whose `catch`
-- does `ROLLBACK` and throws the error again.
unfoldable pub in_transaction : {Db A : Type 0} → Action Db A → Action Db A
in_transaction body = do connect; try_catch (do begin; body) (λ e. do rollback; throw e)

-- The argument `txClient?: PoolClient`: the pool if it is left out.
pub data Executor : Type 0 where
  pool client : Executor

abbrev pub on : {Db A : Type 0} → Executor → Statement Db A → Action Db A
on pool f = on_pool f
on client f = on_client f
