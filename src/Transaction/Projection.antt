-- ===== src/Transaction/Projection.antt =====
-- `ProjectionService` (packages/transaction-service/src/subscribers/index.ts): the local copy of the
-- balances, and the initial deposit of a new account.
use Prim.Native.String.{◌++◌ as ◌<>◌}
use banking_platform.Base.{ℕ, String, Bool, true, false, Option, none, some}
use banking_platform.Base.Int.{pos, ltb_ℤ}
use banking_platform.Shared.Events.{
  deposit, Payload, AccountCreatedPayload, BalanceUpdatedPayload, DomainEvent,
}
use banking_platform.Shared.Database.{
  Action, pure, ◌>>=◌, ◌>>◌, pool, client, try_catch, connect, begin, rollback, commit,
}
use banking_platform.Shared.Tracker.{is_processed, mark_processed}
use banking_platform.Outbox.Repository.{insert}
use banking_platform.Transaction.Repository.{
  Transaction, Ledger, ledger_processed, ledger_outbox, new_transaction, create,
  find_by_idempotency_key, upsert,
}

pub record Env : Type 0 where
  pub transaction_id : ℕ
  pub message_id : ℕ
  pub now : ℕ

-- How an account's UUID is written in an idempotency key.
module _ (show : ℕ → String) (env : Env) (event : DomainEvent AccountCreatedPayload) where
  abbrev pub initial_key : String
  initial_key = "initial-deposit-" <> show event.payload.account_id

  abbrev pub initial_request : Transaction → Payload
  initial_request txn = Payload.transaction_requested (record {
    transaction_id = txn.id;
    type = deposit;
    amount = event.payload.initial_balance;
    currency = event.payload.currency;
    source_account_id = none;
    target_account_id = some event.payload.account_id;
    idempotency_key = initial_key;
    description = some "Initial deposit";
  })

  -- From `BEGIN` to `COMMIT`.
  abbrev pub store_deposit : Action Ledger (Unit {0})
  store_deposit = do
    txn ← create (
        new_transaction env.transaction_id env.now deposit event.payload.initial_balance
          event.payload.currency none (some event.payload.account_id) initial_key
          (some "Initial deposit"))
    _ ← insert env.message_id env.now (initial_request txn) client none
    commit

  -- The transaction around the initial deposit. The `catch` rolls back and logs the error, it does
  -- not throw it again; `pool.connect()` stands before the `try`.
  abbrev pub initial_deposit : Option Transaction → Action Ledger (Unit {0})
  initial_deposit (some _) = pure tt
  initial_deposit none = do connect; try_catch (do begin; store_deposit) (λ _. rollback)

  -- `if (initialBalance > 0)`.
  abbrev pub if_positive : Bool → Action Ledger (Unit {0})
  if_positive false = pure tt
  if_positive true = do existing ← find_by_idempotency_key initial_key; initial_deposit existing

  -- What follows the early return.
  abbrev pub created_unless_seen : Bool → Action Ledger (Unit {0})
  created_unless_seen true = pure tt
  created_unless_seen false = do
    upsert event.payload.account_id (pos 0) event.payload.currency
    mark_processed pool event.id
    if_positive (ltb_ℤ (pos 0) event.payload.initial_balance)

  unfoldable pub on_account_created : Action Ledger (Unit {0})
  unfolding is_processed mark_processed upsert find_by_idempotency_key create insert
  on_account_created = do seen ← is_processed event.id; created_unless_seen seen

-- `upsert` with its default currency.
abbrev pub updated_unless_seen : DomainEvent BalanceUpdatedPayload → Bool → Action Ledger (Unit {0})
updated_unless_seen event true = pure tt
updated_unless_seen event false = do
  upsert event.payload.account_id event.payload.new_balance "PEN"
  mark_processed pool event.id

unfoldable pub on_balance_updated : DomainEvent BalanceUpdatedPayload → Action Ledger (Unit {0})
unfolding is_processed mark_processed upsert
on_balance_updated event = do seen ← is_processed event.id; updated_unless_seen event seen
