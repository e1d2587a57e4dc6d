-- ===== src/Customer/Ledger.antt =====
-- What the subscriber of completed transactions (packages/customer-service/src/subscribers/index.ts)
-- amounts to, as one change of the tables.
use banking_platform.Base.{
  ℕ, Bool, true, false, ◌≡◌, refl, Option, none, some, if◌then◌else◌, ◌⊎◌, inl, inr, List,
}
use banking_platform.Base.Int.{ℤ}
use banking_platform.Shared.Errors.{Result, ok, err, failed_to_credit, failed_to_debit}
use banking_platform.Shared.Events.{
  Computed, sum, difference, TransactionType, deposit, withdrawal, transfer,
  TransactionCompletedPayload, DomainEvent,
}
use banking_platform.Shared.Database.{
  Session, Statement, pure, and_then, in_transaction, on_pool, next_fault, step_pool,
}
use banking_platform.Shared.Database.Atomicity.{
  chain, refuse, IsBody, Commits, on_client-IsClient, throw-IsBody, >>=-IsBody,
  on_client-commit-IsBody, in_transaction-Commits,
}
use banking_platform.Shared.Tracker.{
  is_processed, mark_processed, member, insert_processed, select_processed,
}
use banking_platform.Outbox.Queue.{queue, queue-IsClient}
use banking_platform.Customer.Repository.{
  Bank, bank_processed, bank_outbox, Account, Operation, credit, debit, update_balance,
  update_statement,
}
use banking_platform.Customer.Subscriber.{
  Env, balance_updated, finish, report, balance_before, one_account, credited_or_throw,
  debited_or_throw, two_accounts, move, body, on_transaction_completed,
}

module _ (env : Env) (event : DomainEvent TransactionCompletedPayload) where
  abbrev pub finish_statement : Statement Bank (Unit {0})
  finish_statement = insert_processed event.id

  finish-IsBody : IsBody (finish env event) finish_statement
  unfolding mark_processed
  finish-IsBody = on_client-commit-IsBody (insert_processed event.id)

  abbrev pub report_statement : ℕ → Computed → Option Account → Statement Bank (Unit {0})
  report_statement account_id previous none = finish_statement
  report_statement account_id previous (some updated) =
      chain
        (queue env.message_id env.now
          (balance_updated account_id previous updated.balance event.payload.transaction_id)
          event.correlation_id)
        (λ _. finish_statement)

  report-IsBody :
      (account_id : ℕ) (previous : Computed) (updated : Option Account)
      → IsBody
          (report env event account_id previous updated)
          (report_statement account_id previous updated)
  report-IsBody account_id previous none = finish-IsBody
  report-IsBody account_id previous (some updated) =
      >>=-IsBody _ _ _ _ (queue-IsClient env.message_id env.now _ event.correlation_id)
        (λ _. finish-IsBody)

  -- A deposit or a withdrawal.
  abbrev pub one_statement : Operation → ℕ → ℤ → Statement Bank (Unit {0})
  one_statement op account_id amount =
      chain (update_statement account_id amount op) (λ updated.
        report_statement account_id (balance_before env event op amount updated) updated)

  one_account-IsBody :
      (op : Operation) (account_id : ℕ) (amount : ℤ)
      → IsBody (one_account env event op account_id amount) (one_statement op account_id amount)
  unfolding update_balance
  one_account-IsBody op account_id amount =
      >>=-IsBody _ _ _ _ (on_client-IsClient (update_statement account_id amount op))
        (λ updated. report-IsBody account_id _ updated)

  abbrev pub credited_statement : ℕ → ℕ → ℤ → Account → Option Account → Statement Bank (Unit {0})
  credited_statement source target amount debited none = refuse
  credited_statement source target amount debited (some credited) =
      chain
        (queue env.message_id env.now
          (balance_updated source (sum debited.balance amount) debited.balance
            event.payload.transaction_id)
          event.correlation_id)
        (λ _.
          chain
            (queue env.second_message_id env.now
              (balance_updated target (difference credited.balance amount) credited.balance
                event.payload.transaction_id)
              event.correlation_id)
            (λ _. finish_statement))

  credited-IsBody :
      (source target : ℕ) (amount : ℤ) (debited : Account) (credited : Option Account)
      → IsBody
          (credited_or_throw env event source target amount debited credited)
          (credited_statement source target amount debited credited)
  credited-IsBody source target amount debited none =
      throw-IsBody (failed_to_credit target) (credited_statement source target amount debited none)
  credited-IsBody source target amount debited (some credited) =
      >>=-IsBody _ _ _ _ (queue-IsClient env.message_id env.now _ event.correlation_id) (λ _.
        >>=-IsBody _ _ _ _ (queue-IsClient env.second_message_id env.now _ event.correlation_id)
          (λ _. finish-IsBody))

  abbrev pub debited_statement : ℕ → ℕ → ℤ → Option Account → Statement Bank (Unit {0})
  debited_statement source target amount none = refuse
  debited_statement source target amount (some debited) =
      chain (update_statement target amount credit)
        (credited_statement source target amount debited)

  debited-IsBody :
      (source target : ℕ) (amount : ℤ) (debited : Option Account)
      → IsBody
          (debited_or_throw env event source target amount debited)
          (debited_statement source target amount debited)
  unfolding update_balance
  debited-IsBody source target amount none =
      throw-IsBody (failed_to_debit source) (debited_statement source target amount none)
  debited-IsBody source target amount (some debited) =
      >>=-IsBody _ _ _ _ (on_client-IsClient (update_statement target amount credit))
        (credited-IsBody source target amount debited)

  -- A transfer.
  abbrev pub two_statement : ℕ → ℕ → ℤ → Statement Bank (Unit {0})
  two_statement source target amount =
      chain (update_statement source amount debit) (debited_statement source target amount)

  two_accounts-IsBody :
      (source target : ℕ) (amount : ℤ)
      → IsBody (two_accounts env event source target amount) (two_statement source target amount)
  unfolding update_balance
  two_accounts-IsBody source target amount =
      >>=-IsBody _ _ _ _ (on_client-IsClient (update_statement source amount debit))
        (debited-IsBody source target amount)

  abbrev pub move_statement : TransactionType → Option ℕ → Option ℕ → ℤ → Statement Bank (Unit {0})
  move_statement deposit source (some target) amount = one_statement credit target amount
  move_statement deposit source none amount = finish_statement
  move_statement withdrawal (some source) target amount = one_statement debit source amount
  move_statement withdrawal none target amount = finish_statement
  move_statement transfer (some source) (some target) amount = two_statement source target amount
  move_statement transfer (some source) none amount = finish_statement
  move_statement transfer none target amount = finish_statement

  move-IsBody :
      (type : TransactionType) (source target : Option ℕ) (amount : ℤ)
      → IsBody (move env event type source target amount) (move_statement type source target amount)
  move-IsBody deposit source (some target) amount = one_account-IsBody credit target amount
  move-IsBody deposit source none amount = finish-IsBody
  move-IsBody withdrawal (some source) target amount = one_account-IsBody debit source amount
  move-IsBody withdrawal none target amount = finish-IsBody
  move-IsBody transfer (some source) (some target) amount = two_accounts-IsBody source target amount
  move-IsBody transfer (some source) none amount = finish-IsBody
  move-IsBody transfer none target amount = finish-IsBody

  -- The whole change of the tables by one event.
  unfoldable pub settle : Statement Bank (Unit {0})
  settle =
      move_statement event.payload.type event.payload.source_account_id
        event.payload.target_account_id event.payload.amount

  body-Commits : (s : Session Bank) → Commits s.db settle (in_transaction (body env event) s)
  unfolding body settle
  body-Commits s = in_transaction-Commits (body env event) settle s (
      move-IsBody event.payload.type event.payload.source_account_id event.payload.target_account_id
        event.payload.amount)

  -- How the handler ends: it throws and has changed nothing; or it returns, and if the event was
  -- processed before nothing has changed, and otherwise the whole change is there.
  abbrev pub Handles : Bank → Result (Unit {0}) × Session Bank → Type 0
  Handles db (err e, s') = s'.db ≡ db
  Handles db (ok _, s') =
      ((member event.id db.processed ≡ true) × (s'.db ≡ db))
      ⊎ ((member event.id db.processed ≡ false) × (settle db ≡ some (tt, s'.db)))

  -- Whatever statements fail and whatever the event, the subscriber either throws and changes
  -- nothing, or skips an event that was processed before, or applies the whole change of the event.
  pub on_transaction_completed-Handles :
      (s : Session Bank) → Handles s.db (on_transaction_completed env event s)
  unfolding on_transaction_completed is_processed on_pool
  on_transaction_completed-Handles s = seen (next_fault s.faults)
    where
      run :
          (rest : List Bool) (b : Bool)
          → member event.id s.db.processed ≡ b
          → Handles s.db (
              (if b then pure tt else in_transaction (body env event)) (record s { faults = rest }))
      run rest true h = inl (h, refl)
      run rest false h =
          go (in_transaction (body env event) (record s { faults = rest }))
            (body-Commits (record s { faults = rest }))
        where
          go : (p : Result (Unit {0}) × Session Bank) → Commits s.db settle p → Handles s.db p
          go (err e, s') k = k
          go (ok _, s') k = inr (h, k)

      seen :
          (next : Bool × List Bool)
          → Handles s.db (
              and_then
                (step_pool next (select_processed event.id) s)
                (λ b. if b then pure tt else in_transaction (body env event)))
      seen (true, rest) = refl
      seen (false, rest) = run rest (member event.id s.db.processed) refl
