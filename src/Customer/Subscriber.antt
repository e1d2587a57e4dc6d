-- ===== src/Customer/Subscriber.antt =====
-- The subscriber of completed transactions (packages/customer-service/src/subscribers/index.ts): it
-- moves the money and queues `BalanceUpdated` in one database transaction.
use banking_platform.Base.{ℕ, Option, none, some, if◌then◌else◌}
use banking_platform.Base.Int.{ℤ}
use banking_platform.Shared.Errors.{failed_to_debit, failed_to_credit}
use banking_platform.Shared.Events.{
  Computed, amount_itself, sum, difference, TransactionType, deposit, withdrawal, transfer, Payload,
  TransactionCompletedPayload, DomainEvent,
}
use banking_platform.Shared.Database.{
  Action, pure, throw, ◌>>=◌, ◌>>◌, client, in_transaction, commit,
}
use banking_platform.Shared.Tracker.{is_processed, mark_processed}
use banking_platform.Outbox.Repository.{insert}
use banking_platform.Customer.Repository.{
  Bank, bank_processed, bank_outbox, Account, Operation, credit, debit, update_balance,
}

-- What `uuid()` returns for the first and the second message, and the time.
pub record Env : Type 0 where
  pub message_id : ℕ
  pub second_message_id : ℕ
  pub now : ℕ

abbrev pub balance_updated : ℕ → Computed → ℤ → ℕ → Payload
balance_updated account_id previous_balance new_balance transaction_id =
    Payload.balance_updated (record {
      account_id = account_id;
      previous_balance = previous_balance;
      new_balance = new_balance;
      transaction_id = transaction_id;
    })

module _ (env : Env) (event : DomainEvent TransactionCompletedPayload) where
  -- `markProcessed` and `COMMIT`, with which every branch ends.
  abbrev pub finish : Action Bank (Unit {0})
  finish = do mark_processed client event.id; commit

  -- `if (updated) { … return; }` of a deposit or a withdrawal, else what follows the `if`.
  abbrev pub report : ℕ → Computed → Option Account → Action Bank (Unit {0})
  report account_id previous none = finish
  report account_id previous (some updated) = do
    _ ←
        insert env.message_id env.now
          (balance_updated account_id previous updated.balance event.payload.transaction_id) client
          event.correlation_id
    finish

  abbrev pub balance_before : Operation → ℤ → Option Account → Computed
  balance_before op amount none = amount_itself amount
  balance_before credit amount (some updated) = difference updated.balance amount
  balance_before debit amount (some updated) = sum updated.balance amount

  -- A deposit (`credit`) or a withdrawal (`debit`) with its account.
  abbrev pub one_account : Operation → ℕ → ℤ → Action Bank (Unit {0})
  one_account op account_id amount = do
    updated ← update_balance account_id amount op client
    report account_id (balance_before op amount updated) updated

  abbrev pub credited_or_throw : ℕ → ℕ → ℤ → Account → Option Account → Action Bank (Unit {0})
  credited_or_throw source target amount debited none = throw (failed_to_credit target)
  credited_or_throw source target amount debited (some credited) = do
    _ ←
        insert env.message_id env.now
          (balance_updated source (sum debited.balance amount) debited.balance
            event.payload.transaction_id)
          client event.correlation_id
    _ ←
        insert env.second_message_id env.now
          (balance_updated target (difference credited.balance amount) credited.balance
            event.payload.transaction_id)
          client event.correlation_id
    finish

  abbrev pub debited_or_throw : ℕ → ℕ → ℤ → Option Account → Action Bank (Unit {0})
  debited_or_throw source target amount none = throw (failed_to_debit source)
  debited_or_throw source target amount (some debited) = do
    credited ← update_balance target amount credit client
    credited_or_throw source target amount debited credited

  abbrev pub two_accounts : ℕ → ℕ → ℤ → Action Bank (Unit {0})
  two_accounts source target amount = do
    debited ← update_balance source amount debit client
    debited_or_throw source target amount debited

  -- The branches of the `try` block by type and by which accounts are given.
  abbrev pub move : TransactionType → Option ℕ → Option ℕ → ℤ → Action Bank (Unit {0})
  move deposit source (some target) amount = one_account credit target amount
  move deposit source none amount = finish
  move withdrawal (some source) target amount = one_account debit source amount
  move withdrawal none target amount = finish
  move transfer (some source) (some target) amount = two_accounts source target amount
  move transfer (some source) none amount = finish
  move transfer none target amount = finish

  unfoldable pub body : Action Bank (Unit {0})
  unfolding update_balance insert mark_processed
  body =
      move event.payload.type event.payload.source_account_id event.payload.target_account_id
        event.payload.amount

  -- The handler.
  unfoldable pub on_transaction_completed : Action Bank (Unit {0})
  unfolding body is_processed in_transaction
  on_transaction_completed = do
    seen ← is_processed event.id
    if seen then pure tt else in_transaction body
