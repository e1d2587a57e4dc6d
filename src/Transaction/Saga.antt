-- ===== src/Transaction/Saga.antt =====
-- `SagaService` (packages/transaction-service/src/saga/transaction.saga.ts): the handler of
-- `TransactionRequested`, which completes or rejects the transaction.
use banking_platform.Base.{ℕ, Bool, true, false, Option, none, some, if◌then◌else◌}
use banking_platform.Base.Int.{ℤ, pos, ltb_ℤ}
use banking_platform.Shared.Errors.{type_error}
use banking_platform.Shared.Events.{
  TransactionType, deposit, withdrawal, transfer, Reason, Payload, TransactionRequestedPayload,
  DomainEvent,
}
use banking_platform.Shared.Database.{
  Action, pure, throw, ◌>>=◌, ◌>>◌, client, try_catch, in_transaction, commit,
}
use banking_platform.Shared.Tracker.{is_processed, mark_processed}
use banking_platform.Outbox.Repository.{insert}
use banking_platform.Transaction.Repository.{
  Transaction, Ledger, ledger_processed, ledger_outbox, to_completed, to_rejected, update_status,
  get_balance, exists,
}

-- What `uuid()` returns for the message of the first attempt and for that of a rejection in the
-- `catch`, and the time.
pub record Env : Type 0 where
  pub message_id : ℕ
  pub second_message_id : ℕ
  pub now : ℕ

abbrev pub completed_payload : Transaction → Payload
completed_payload t = Payload.transaction_completed (record {
  transaction_id = t.id;
  type = t.type;
  amount = t.amount;
  currency = t.currency;
  source_account_id = t.source_account_id;
  target_account_id = t.target_account_id;
  description = t.description;
})

-- `balance ?? 0`.
abbrev pub or_zero : Option ℤ → ℤ
or_zero none = pos 0
or_zero (some b) = b

-- `balance === null || balance < amount`.
abbrev pub falls_short : Option ℤ → ℤ → Bool
falls_short none amount = true
falls_short (some balance) amount = ltb_ℤ balance amount

-- The account that the first `if` checks, and the one that the second checks.
abbrev pub source_to_check : TransactionType → Option ℕ → Option ℕ
source_to_check deposit source = none
source_to_check withdrawal source = source
source_to_check transfer source = source

abbrev pub target_to_check : TransactionType → Option ℕ → Option ℕ
target_to_check deposit target = target
target_to_check withdrawal target = none
target_to_check transfer target = target

module _ (env : Env) (event : DomainEvent TransactionRequestedPayload) where
  abbrev pub rejected_payload : Reason → Payload
  rejected_payload reason = Payload.transaction_rejected (record {
    transaction_id = event.payload.transaction_id;
    type = event.payload.type;
    amount = event.payload.amount;
    reason = reason;
    source_account_id = event.payload.source_account_id;
    target_account_id = event.payload.target_account_id;
  })

  -- `rejectTransaction`, with the identifier of its message.
  unfoldable pub reject : ℕ → Reason → Action Ledger (Unit {0})
  unfolding update_status insert mark_processed
  reject message_id reason = in_transaction (do
    _ ← update_status env.now event.payload.transaction_id to_rejected (some reason)
    _ ← insert message_id env.now (rejected_payload reason) client event.correlation_id
    mark_processed client event.id
    commit)

  -- `completed.id` and the other reads throw if no row came back.
  abbrev pub announce : Option Transaction → Action Ledger (Unit {0})
  announce none = throw type_error
  announce (some completed) = do
    _ ← insert env.message_id env.now (completed_payload completed) client event.correlation_id
    mark_processed client event.id
    commit

  unfoldable pub complete : Action Ledger (Unit {0})
  unfolding update_status insert mark_processed
  complete = in_transaction (do
    completed ← update_status env.now event.payload.transaction_id to_completed none
    announce completed)

  abbrev pub target_checked : ℕ → Bool → Action Ledger (Unit {0})
  target_checked target false = reject env.message_id (Reason.target_not_found target)
  target_checked target true = complete

  -- The second `if`, and the completion.
  abbrev pub check_target : Option ℕ → Action Ledger (Unit {0})
  check_target none = complete
  check_target (some target) = do there ← exists target; target_checked target there

  abbrev pub balance_checked : Option ℤ → Action Ledger (Unit {0})
  balance_checked balance =
      if falls_short balance event.payload.amount
      then reject env.message_id (Reason.insufficient_funds (or_zero balance) event.payload.amount)
      else check_target (target_to_check event.payload.type event.payload.target_account_id)

  abbrev pub source_checked : ℕ → Bool → Action Ledger (Unit {0})
  source_checked source false = reject env.message_id (Reason.source_not_found source)
  source_checked source true = do balance ← get_balance source; balance_checked balance

  -- The `try` block.
  abbrev pub check_source : Option ℕ → Action Ledger (Unit {0})
  check_source none =
      check_target (target_to_check event.payload.type event.payload.target_account_id)
  check_source (some source) = do there ← exists source; source_checked source there

  -- What follows the early return.
  abbrev pub unless_seen : Bool → Action Ledger (Unit {0})
  unless_seen true = pure tt
  unless_seen false =
      try_catch (check_source (source_to_check event.payload.type event.payload.source_account_id))
        (λ e. reject env.second_message_id (Reason.processing_error e))

  -- The handler.
  unfoldable pub on_transaction_requested : Action Ledger (Unit {0})
  unfolding reject complete is_processed exists get_balance
  on_transaction_requested = do seen ← is_processed event.id; unless_seen seen
