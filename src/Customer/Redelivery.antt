-- ===== src/Customer/Redelivery.antt =====
-- Redelivery of an event to the subscriber of completed transactions (packages/customer-service/
-- src/subscribers/index.ts).
use banking_platform.Base.{ℕ, ◌≡◌, sym, ◌∙◌, true, false, Option, none, some, arith, inl, inr}
use banking_platform.Base.Int.{ℤ}
use banking_platform.Shared.Errors.{Result, ok, err}
use banking_platform.Shared.Events.{
  Computed, sum, difference, TransactionType, deposit, withdrawal, transfer,
  TransactionCompletedPayload, DomainEvent,
}
use banking_platform.Shared.Database.{Session, Statement}
use banking_platform.Shared.Database.Atomicity.{chain, chain-eq-some, refuse}
use banking_platform.Shared.Tracker.{member, member-add_id}
use banking_platform.Outbox.Queue.{queue}
use banking_platform.Customer.Repository.{
  bank_outbox, Bank, bank_processed, Account, Operation, credit, debit, update_statement,
}
use banking_platform.Customer.Subscriber.{
  Env, on_transaction_completed, balance_before, balance_updated,
}
use banking_platform.Customer.Ledger.{
  finish_statement, report_statement, credited_statement, debited_statement, one_statement,
  move_statement, settle, Handles, on_transaction_completed-Handles,
}

module _ (env : Env) (event : DomainEvent TransactionCompletedPayload) where
  -- A settled event is marked as processed.
  abbrev Marks : {A : Type 0} → Statement Bank A → Type 0
  Marks {A} f =
      (db db' : Bank) (a : A) → f db ≡ some (a, db') → member event.id db'.processed ≡ true

  finish-Marks : Marks (finish_statement env event)
  finish-Marks db db' a h = ground (arith, member-add_id event.id db.processed)

  -- The last statement of a sequence decides.
  chain-Marks :
      {A B : Type 0} (f : Statement Bank A) (g : A → Statement Bank B)
      → ((a : A) → Marks (g a))
      → Marks (chain f g)
  chain-Marks f g h db db' b e =
      let (a, db₁, ran, rest) = chain-eq-some f g db e in h a db₁ db' b rest

  refuse-Marks : Marks (refuse {A = Unit {0}})
  refuse-Marks db db' a h = cc

  report-Marks :
      (id : ℕ) (previous : Computed) (u : Option Account)
      → Marks (report_statement env event id previous u)
  report-Marks id previous none = finish-Marks
  report-Marks id previous (some a) =
      chain-Marks
        (queue env.message_id env.now
          (balance_updated id previous a.balance event.payload.transaction_id) event.correlation_id)
        (λ _. finish_statement env event) (λ _. finish-Marks)

  one-Marks : (op : Operation) (id : ℕ) (amount : ℤ) → Marks (one_statement env event op id amount)
  one-Marks op id amount =
      chain-Marks (update_statement id amount op)
        (λ (u : Option Account).
          report_statement env event id (balance_before env event op amount u) u)
        (λ u. report-Marks id (balance_before env event op amount u) u)

  credited-Marks :
      (source target : ℕ) (amount : ℤ) (debited : Account) (u : Option Account)
      → Marks (credited_statement env event source target amount debited u)
  credited-Marks source target amount debited none = refuse-Marks
  credited-Marks source target amount debited (some a) =
      let first =
        balance_updated source (sum debited.balance amount) debited.balance
          event.payload.transaction_id in
      let second =
        balance_updated target (difference a.balance amount) a.balance
          event.payload.transaction_id in
      chain-Marks (queue env.message_id env.now first event.correlation_id)
        (λ _.
          chain (queue env.second_message_id env.now second event.correlation_id)
            (λ _. finish_statement env event))
        (λ _.
          chain-Marks (queue env.second_message_id env.now second event.correlation_id)
            (λ _. finish_statement env event) (λ _. finish-Marks))

  debited-Marks :
      (source target : ℕ) (amount : ℤ) (u : Option Account)
      → Marks (debited_statement env event source target amount u)
  debited-Marks source target amount none = refuse-Marks
  debited-Marks source target amount (some a) =
      chain-Marks (update_statement target amount credit)
        (credited_statement env event source target amount a)
        (credited-Marks source target amount a)

  move-Marks :
      (type : TransactionType) (source target : Option ℕ) (amount : ℤ)
      → Marks (move_statement env event type source target amount)
  move-Marks deposit source (some target) amount = one-Marks credit target amount
  move-Marks deposit source none amount = finish-Marks
  move-Marks withdrawal (some source) target amount = one-Marks debit source amount
  move-Marks withdrawal none target amount = finish-Marks
  move-Marks transfer (some source) (some target) amount =
      chain-Marks (update_statement source amount debit)
        (debited_statement env event source target amount) (debited-Marks source target amount)
  move-Marks transfer (some source) none amount = finish-Marks
  move-Marks transfer none target amount = finish-Marks

  pub handled-marks :
      (p : Result (Unit {0}) × Session Bank) (db : Bank)
      → Handles env event db p
      → p.0 ≡ ok tt
      → member event.id p.1.db.processed ≡ true
  unfolding settle
  handled-marks (err e, s') db h returned = cc
  handled-marks (ok tt, s') db (inl (seen, same)) returned = rw same seen
  handled-marks (ok tt, s') db (inr (new, ran)) returned =
      move-Marks event.payload.type event.payload.source_account_id event.payload.target_account_id
        event.payload.amount db s'.db tt ran

  pub handled-again :
      (p : Result (Unit {0}) × Session Bank) (db : Bank)
      → Handles env event db p
      → member event.id db.processed ≡ true
      → p.1.db ≡ db
  handled-again (err e, s') db h seen = h
  handled-again (ok tt, s') db (inl (_, same)) seen = same
  handled-again (ok tt, s') db (inr (new, ran)) seen =
      (let clash : true ≡ false = sym seen ∙ new in cc)

  -- Once the subscriber has returned for an event, a later delivery of it, on any connection to the
  -- tables that it left and whatever statements fail, changes nothing.
  pub on_transaction_completed_twice :
      (s t : Session Bank)
      → (on_transaction_completed env event s).0 ≡ ok tt
      → t.db ≡ (on_transaction_completed env event s).1.db
      → (on_transaction_completed env event t).1.db ≡ t.db
  on_transaction_completed_twice s t returned same =
      handled-again (on_transaction_completed env event t) t.db
        (on_transaction_completed-Handles env event t)
        (rw same (
          handled-marks (on_transaction_completed env event s) s.db
            (on_transaction_completed-Handles env event s) returned))
