-- ===== src/Shared/Tracker.antt =====
-- The table `processed_events` and `EventTracker` (packages/customer-service/src/repositories/
-- index.ts, packages/transaction-service/src/repositories/index.ts), over any database that has it.
use banking_platform.Base.{
  ℕ, ◌≡◌, ◌==◌, Bool, true, false, ◌||◌, some, List, [], ◌∷◌, arith, if◌then◌else◌,
}
use banking_platform.Shared.Database.{Statement, Action, Executor, on, on_pool}

-- A database with the table: the identifiers of the processed events.
pub record HasProcessed (Db : Type 0) : Type 0 where
  pub processed : Db → List ℕ
  pub set_processed : List ℕ → Db → Db
  pub processed-set : (ids : List ℕ) (db : Db) → processed (set_processed ids db) ≡ ids

abbrev pub member : ℕ → List ℕ → Bool
member id [] = false
member id (x ∷ xs) = x == id || member id xs

-- `INSERT … ON CONFLICT DO NOTHING` on the primary key.
abbrev pub add_id : ℕ → List ℕ → List ℕ
add_id id ids = if member id ids then ids else id ∷ ids

pub member-add_id : (id : ℕ) (ids : List ℕ) → member id (add_id id ids) ≡ true
member-add_id id ids = ground arith

module _ {Db : Type 0} ⦃t : HasProcessed Db⦄ where
  -- `SELECT 1 FROM processed_events WHERE event_id = $1`, `rows.length > 0`.
  abbrev pub select_processed : ℕ → Statement Db Bool
  select_processed id db = some (member id (t.processed db), db)

  abbrev pub insert_processed : ℕ → Statement Db (Unit {0})
  insert_processed id db = some (tt, t.set_processed (add_id id (t.processed db)) db)

  unfoldable pub is_processed : ℕ → Action Db Bool
  is_processed id = on_pool (select_processed id)

  unfoldable pub mark_processed : Executor → ℕ → Action Db (Unit {0})
  mark_processed executor id = on executor (insert_processed id)
