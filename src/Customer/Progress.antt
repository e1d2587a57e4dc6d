-- ===== src/Customer/Progress.antt =====
-- The subscriber of completed transactions (packages/customer-service/src/subscribers/index.ts) on a
-- session in which no statement fails.
use banking_platform.Base.{ℕ, false, ◌≡◌, ap, ◌∙◌, Option, none, some, if◌then◌else◌}
use banking_platform.Base.Int.{ℤ}
use banking_platform.Shared.Errors.{ok}
use banking_platform.Shared.Events.{
  Computed, TransactionType, deposit, withdrawal, transfer, TransactionCompletedPayload,
  DomainEvent,
}
use banking_platform.Shared.Database.{pure, in_transaction, on_pool}
use banking_platform.Shared.Database.Progress.{
  calm, Concludes, on_client-Runs, >>=-Concludes, on_client-commit-Concludes,
  in_transaction-Concludes,
}
use banking_platform.Shared.Tracker.{is_processed, mark_processed, member, insert_processed}
use banking_platform.Outbox.Queue.{queue-Runs}
use banking_platform.Customer.Repository.{
  Bank, bank_processed, bank_outbox, Account, Operation, credit, debit, update_balance,
  update_statement,
}
use banking_platform.Customer.Subscriber.{
  Env, finish, report, one_account, credited_or_throw, debited_or_throw, move, body,
  on_transaction_completed,
}
use banking_platform.Customer.Ledger.{
  finish_statement, report_statement, one_statement, credited_statement, debited_statement,
  move_statement, settle,
}

module _ (env : Env) (event : DomainEvent TransactionCompletedPayload) where
  finish-Concludes : Concludes (finish env event) (finish_statement env event)
  unfolding mark_processed
  finish-Concludes = on_client-commit-Concludes (insert_processed event.id)

  report-Concludes :
      (account_id : ℕ) (previous : Computed) (updated : Option Account)
      → Concludes
          (report env event account_id previous updated)
          (report_statement env event account_id previous updated)
  report-Concludes account_id previous none = finish-Concludes
  report-Concludes account_id previous (some updated) =
      >>=-Concludes _ _ _ _ (queue-Runs env.message_id env.now _ event.correlation_id)
        (λ _. finish-Concludes)

  one_account-Concludes :
      (op : Operation) (account_id : ℕ) (amount : ℤ)
      → Concludes
          (one_account env event op account_id amount)
          (one_statement env event op account_id amount)
  unfolding update_balance
  one_account-Concludes op account_id amount =
      >>=-Concludes _ _ _ _ (on_client-Runs (update_statement account_id amount op))
        (λ updated. report-Concludes account_id _ updated)

  credited-Concludes :
      (source target : ℕ) (amount : ℤ) (debited : Account) (credited : Option Account)
      → Concludes
          (credited_or_throw env event source target amount debited credited)
          (credited_statement env event source target amount debited credited)
  credited-Concludes source target amount debited none = λ s v a c h. cc
  credited-Concludes source target amount debited (some credited) =
      >>=-Concludes _ _ _ _ (queue-Runs env.message_id env.now _ event.correlation_id) (λ _.
        >>=-Concludes _ _ _ _ (queue-Runs env.second_message_id env.now _ event.correlation_id)
          (λ _. finish-Concludes))

  debited-Concludes :
      (source target : ℕ) (amount : ℤ) (debited : Option Account)
      → Concludes
          (debited_or_throw env event source target amount debited)
          (debited_statement env event source target amount debited)
  unfolding update_balance
  debited-Concludes source target amount none = λ s v a c h. cc
  debited-Concludes source target amount (some debited) =
      >>=-Concludes _ _ _ _ (on_client-Runs (update_statement target amount credit))
        (credited-Concludes source target amount debited)

  move-Concludes :
      (type : TransactionType) (source target : Option ℕ) (amount : ℤ)
      → Concludes
          (move env event type source target amount)
          (move_statement env event type source target amount)
  unfolding update_balance
  move-Concludes deposit source (some target) amount = one_account-Concludes credit target amount
  move-Concludes deposit source none amount = finish-Concludes
  move-Concludes withdrawal (some source) target amount = one_account-Concludes debit source amount
  move-Concludes withdrawal none target amount = finish-Concludes
  move-Concludes transfer (some source) (some target) amount =
      >>=-Concludes _ _ _ _ (on_client-Runs (update_statement source amount debit))
        (debited-Concludes source target amount)
  move-Concludes transfer (some source) none amount = finish-Concludes
  move-Concludes transfer none target amount = finish-Concludes

  -- If no statement fails for reasons of its own, an event that was not processed before and whose
  -- change of the tables goes through is handled: the subscriber returns with that change committed.
  pub on_transaction_completed-returns :
      (db view db' : Bank)
      → member event.id db.processed ≡ false
      → settle env event db ≡ some (tt, db')
      → on_transaction_completed env event (calm db view) ≡ (ok tt, calm db' db')
  unfolding on_transaction_completed settle is_processed on_pool body
  on_transaction_completed-returns db view db' new ran =
      ap (λ seen. (if seen then pure tt else in_transaction (body env event)) (calm db view)) new
      ∙ in_transaction-Concludes (body env event) (settle env event) db view db' tt
          (move-Concludes event.payload.type event.payload.source_account_id
            event.payload.target_account_id event.payload.amount)
          ran
