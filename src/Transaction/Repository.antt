-- ===== src/Transaction/Repository.antt =====
-- The tables of packages/transaction-service/src/models/database.ts and the repositories of
-- packages/transaction-service/src/repositories/index.ts. Amounts are whole cents.
use Prim.Native.String.{count}
use text.Mathlib.Text.{◌==◌ as str_eq}
use banking_platform.Base.{
  ℕ, ◌==◌, leb, ltb, refl, String, Bool, false, ◌||◌, Option, none, some, List, [], ◌∷◌, ◌++◌,
  select, find, take, update_where, is_some, if◌then◌else◌,
}
use banking_platform.Base.Int.{ℤ, pos, leb_ℤ}
use banking_platform.Shared.Events.{TransactionType, Reason}
use banking_platform.Shared.Database.{Statement, Action, on_pool}
use banking_platform.Shared.Tracker.{HasProcessed}
use banking_platform.Outbox.Repository.{OutboxMessage, HasOutbox}

pub data TransactionStatus : Type 0 where
  pending completed rejected : TransactionStatus

pub record Transaction : Type 0 where
  pub id : ℕ
  pub type : TransactionType
  pub status : TransactionStatus
  pub amount : ℤ
  pub currency : String
  pub source_account_id : Option ℕ
  pub target_account_id : Option ℕ
  pub idempotency_key : String
  pub description : Option String
  pub reason : Option Reason
  pub created_at : ℕ
  pub completed_at : Option ℕ

-- A row of `account_projections`.
pub record Projection : Type 0 where
  pub account_id : ℕ
  pub balance : ℤ
  pub currency : String

-- The database of the service.
pub record Ledger : Type 0 where
  pub transactions : List Transaction
  pub processed : List ℕ
  pub projections : List Projection
  pub outbox : List OutboxMessage

instance abbrev pub ledger_processed : HasProcessed Ledger
ledger_processed = record {
  processed = λ db. db.processed;
  set_processed = λ ids db. record db { processed = ids };
  processed-set = λ ids db. refl;
}

instance abbrev pub ledger_outbox : HasOutbox Ledger
ledger_outbox = record {
  outbox = λ db. db.outbox;
  set_outbox = λ rows db. record db { outbox = rows };
  outbox-set = λ rows db. refl;
}

-- The row of `create`, with `status` 'pending'.
abbrev pub new_transaction :
    ℕ
    → ℕ
    → TransactionType
    → ℤ
    → String
    → Option ℕ
    → Option ℕ
    → String
    → Option String
    → Transaction
new_transaction id now type amount currency source target key description = record {
  id = id;
  type = type;
  status = pending;
  amount = amount;
  currency = currency;
  source_account_id = source;
  target_account_id = target;
  idempotency_key = key;
  description = description;
  reason = none;
  created_at = now;
  completed_at = none;
}

-- The unique keys `id` and `idempotency_key`.
abbrev pub clashes : Transaction → List Transaction → Bool
clashes t [] = false
clashes t (u ∷ us) = u.id == t.id || str_eq u.idempotency_key t.idempotency_key || clashes t us

-- What the table refuses: `CHECK (amount > 0)`, its keys, and a text that is longer than its
-- `VARCHAR(3)` or `VARCHAR(255)`.
abbrev pub transaction_refused : Transaction → List Transaction → Bool
transaction_refused t ts =
    leb_ℤ t.amount (pos 0)
    || ltb 3 (count t.currency)
    || ltb 255 (count t.idempotency_key)
    || clashes t ts

-- `INSERT INTO transactions`.
abbrev pub insert_transaction : Transaction → Statement Ledger Transaction
insert_transaction t db =
    if transaction_refused t db.transactions
    then none
    else some (t, record db { transactions = db.transactions ++ (t ∷ []) })

unfoldable pub create : Transaction → Action Ledger Transaction
create t = on_pool (insert_transaction t)

abbrev pub transaction_of : ℕ → List Transaction → Option Transaction
transaction_of id ts = find (λ t. t.id == id) ts

abbrev pub transaction_of_key : String → List Transaction → Option Transaction
transaction_of_key key ts = find (λ t. str_eq t.idempotency_key key) ts

unfoldable pub find_by_id : ℕ → Action Ledger (Option Transaction)
find_by_id id = on_pool (λ db. some (transaction_of id db.transactions, db))

unfoldable pub find_by_idempotency_key : String → Action Ledger (Option Transaction)
find_by_idempotency_key key = on_pool (λ db. some (transaction_of_key key db.transactions, db))

abbrev pub is_id : Option ℕ → ℕ → Bool
is_id none id = false
is_id (some i) id = i == id

-- `ORDER BY created_at DESC`, stable.
abbrev pub insert_newest : Transaction → List Transaction → List Transaction
insert_newest t [] = t ∷ []
insert_newest t (u ∷ us) =
    let rest = insert_newest t us in if leb u.created_at t.created_at then t ∷ u ∷ us else u ∷ rest

abbrev pub newest_first : List Transaction → List Transaction
newest_first [] = []
newest_first (t ∷ ts) = insert_newest t (newest_first ts)

unfoldable pub find_by_account_id : ℕ → ℕ → Action Ledger (List Transaction)
find_by_account_id account_id limit = on_pool (λ db. some (
  take limit (
      newest_first (
        select (λ t. is_id t.source_account_id account_id || is_id t.target_account_id account_id)
          db.transactions)),
  db,
))

-- The two statuses that `updateStatus` takes.
pub data FinalStatus : Type 0 where
  to_completed to_rejected : FinalStatus

abbrev pub status_of : FinalStatus → TransactionStatus
status_of to_completed = completed
status_of to_rejected = rejected

-- `CASE WHEN $2 = 'completed' THEN NOW() ELSE completed_at END`.
abbrev pub completion_time : FinalStatus → ℕ → Option ℕ → Option ℕ
completion_time to_completed now old = some now
completion_time to_rejected now old = old

abbrev pub decide : ℕ → FinalStatus → Option Reason → Transaction → Transaction
decide now status reason t = record t {
  status = status_of status;
  reason = reason;
  completed_at = completion_time status now t.completed_at;
}

-- `UPDATE transactions … WHERE id = $1 RETURNING …`, and `rows[0]`.
abbrev pub update_status_statement :
    ℕ → ℕ → FinalStatus → Option Reason → Statement Ledger (Option Transaction)
update_status_statement now id status reason db =
    let rows = update_where (λ t. t.id == id) (decide now status reason) db.transactions in
    some (transaction_of id rows, record db { transactions = rows })

-- `updateStatus` uses the pool, not the client of the transaction.
unfoldable pub update_status :
    ℕ → ℕ → FinalStatus → Option Reason → Action Ledger (Option Transaction)
update_status now id status reason = on_pool (update_status_statement now id status reason)

-- `INSERT … ON CONFLICT (account_id) DO UPDATE SET balance = $2`.
abbrev pub upsert_row : ℕ → ℤ → String → List Projection → List Projection
upsert_row id balance currency [] =
    record { account_id = id; balance = balance; currency = currency } ∷ []
upsert_row id balance currency (p ∷ ps) =
    let rest = upsert_row id balance currency ps in
    if p.account_id == id then record p { balance = balance } ∷ ps else p ∷ rest

unfoldable pub upsert : ℕ → ℤ → String → Action Ledger (Unit {0})
upsert id balance currency =
    on_pool
      (λ db. some (tt, record db { projections = upsert_row id balance currency db.projections }))

abbrev pub projected : ℕ → List Projection → Option ℤ
projected id [] = none
projected id (p ∷ ps) =
    let rest = projected id ps in if p.account_id == id then some p.balance else rest

unfoldable pub get_balance : ℕ → Action Ledger (Option ℤ)
get_balance id = on_pool (λ db. some (projected id db.projections, db))

unfoldable pub exists : ℕ → Action Ledger Bool
exists id = on_pool (λ db. some (is_some (projected id db.projections), db))
