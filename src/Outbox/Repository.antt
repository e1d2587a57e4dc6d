-- ===== src/Outbox/Repository.antt =====
-- `OutboxRepository` (packages/shared/src/outbox/outbox.repository.ts), over any database that has
-- the table `outbox`. Times are numbers of hours.
use banking_platform.Base.{
  ℕ, ◌+◌, ◌≡◌, ◌==◌, ltb, leb, Bool, false, ◌&&◌, ◌||◌, not, Option, none, some, List, [], ◌∷◌,
  ◌++◌, select, take, length, update_where, is_some, if◌then◌else◌,
}
use banking_platform.Shared.Errors.{Error}
use banking_platform.Shared.Events.{Payload}
use banking_platform.Shared.Database.{Statement, Action, Executor, on, try_catch, pure, ◌>>◌}

-- `OutboxMessage`, a row of `outbox`.
pub record OutboxMessage : Type 0 where
  pub id : ℕ
  pub payload : Payload
  pub correlation_id : Option ℕ
  pub created_at : ℕ
  pub published_at : Option ℕ
  pub attempts : ℕ
  pub last_error : Option Error

abbrev pub new_message : ℕ → Payload → Option ℕ → ℕ → OutboxMessage
new_message id payload correlation_id now = record {
  id = id;
  payload = payload;
  correlation_id = correlation_id;
  created_at = now;
  published_at = none;
  attempts = 0;
  last_error = none;
}

abbrev pub has_message : ℕ → List OutboxMessage → Bool
has_message id [] = false
has_message id (m ∷ ms) = m.id == id || has_message id ms

abbrev pub is_pending : OutboxMessage → Bool
is_pending m = not (is_some m.published_at)

-- `ORDER BY created_at ASC`, stable.
abbrev pub insert_by_time : OutboxMessage → List OutboxMessage → List OutboxMessage
insert_by_time m [] = m ∷ []
insert_by_time m (n ∷ ns) =
    let rest = insert_by_time m ns in if leb m.created_at n.created_at then m ∷ n ∷ ns else n ∷ rest

abbrev pub sort_by_time : List OutboxMessage → List OutboxMessage
sort_by_time [] = []
sort_by_time (m ∷ ms) = insert_by_time m (sort_by_time ms)

unfoldable pub get_pending : ℕ → List OutboxMessage → List OutboxMessage
get_pending limit rows = take limit (sort_by_time (select is_pending rows))

unfoldable pub mark_published : ℕ → ℕ → List OutboxMessage → List OutboxMessage
mark_published now id rows =
    update_where (λ m. m.id == id) (λ m. record m { published_at = some now }) rows

unfoldable pub record_failure : ℕ → Error → List OutboxMessage → List OutboxMessage
record_failure id error rows =
    update_where (λ m. m.id == id)
      (λ m. record m { attempts = m.attempts + 1; last_error = some error }) rows

-- `published_at IS NOT NULL AND published_at < NOW() - INTERVAL '1 hour' * $1`.
abbrev pub is_expired : ℕ → ℕ → Option ℕ → Bool
is_expired now hours none = false
is_expired now hours (some t) = ltb (t + hours) now

-- The rows that stay, and how many are deleted.
unfoldable pub delete_published : ℕ → ℕ → List OutboxMessage → ℕ × List OutboxMessage
delete_published now hours rows = (
  length (select (λ m. is_expired now hours m.published_at) rows),
  select (λ m. not (is_expired now hours m.published_at)) rows,
)

unfoldable pub get_failed : ℕ → List OutboxMessage → List OutboxMessage
get_failed min_attempts rows =
    sort_by_time (select (λ m. is_pending m && leb min_attempts m.attempts) rows)

-- A database with the table.
pub record HasOutbox (Db : Type 0) : Type 0 where
  pub outbox : Db → List OutboxMessage
  pub set_outbox : List OutboxMessage → Db → Db
  pub outbox-set : (rows : List OutboxMessage) (db : Db) → outbox (set_outbox rows db) ≡ rows

module _ {Db : Type 0} ⦃t : HasOutbox Db⦄ where
  -- `INSERT INTO outbox`, refused if the primary key is taken.
  abbrev pub insert_message : OutboxMessage → Statement Db (Unit {0})
  insert_message m db =
      if has_message m.id (t.outbox db)
      then none
      else some (tt, t.set_outbox (t.outbox db ++ (m ∷ [])) db)

  abbrev pub notify : Statement Db (Unit {0})
  notify db = some (tt, db)

  -- `insert`; `id` is what `uuid()` returns. A failure of `NOTIFY` is caught.
  unfoldable pub insert : ℕ → ℕ → Payload → Executor → Option ℕ → Action Db ℕ
  insert id now payload executor correlation_id = do
    on executor (insert_message (new_message id payload correlation_id now))
    try_catch (on executor notify) (λ _. pure tt)
    pure id
