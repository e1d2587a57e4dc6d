-- ===== src/Transaction/Settling.antt =====
-- What the saga (packages/transaction-service/src/saga/transaction.saga.ts) is to decide, and its two
-- database transactions on a session in which no statement fails.
use banking_platform.Base.{
  ℕ, ◌==◌, ◌≡◌, refl, ap, false, Option, none, some, List, [], ◌∷◌, ◌++◌, update_where,
  if◌then◌else◌, arith,
}
use banking_platform.Base.Int.{ℤ, ltb_ℤ}
use banking_platform.Shared.Errors.{ok}
use banking_platform.Shared.Events.{
  TransactionType, deposit, withdrawal, transfer, Reason, Payload, TransactionRequestedPayload,
  DomainEvent,
}
use banking_platform.Shared.Database.{client, commit, ◌>>=◌, ◌>>◌}
use banking_platform.Shared.Database.Progress.{
  calm, Concludes, >>=-Concludes, on_client-commit-Concludes, pool_first-Concludes,
}
use banking_platform.Shared.Database.Atomicity.{chain}
use banking_platform.Shared.Tracker.{member, mark_processed, insert_processed}
use banking_platform.Outbox.Repository.{new_message, has_message, insert}
use banking_platform.Outbox.Queue.{queue, queue-Runs}
use banking_platform.Transaction.Repository.{
  Transaction, completed, rejected, Projection, Ledger, FinalStatus, to_completed, to_rejected,
  decide, transaction_of, projected, update_status, update_status_statement, ledger_processed,
  ledger_outbox,
}
use banking_platform.Transaction.Saga.{
  Env, completed_payload, rejected_payload, reject, announce, complete,
}

-- Why a request is refused, if it is, by the balances as they are projected.
abbrev pub source_refusal : Option ℤ → ℕ → ℤ → Option Reason
source_refusal none source amount = some (Reason.source_not_found source)
source_refusal (some b) source amount =
    if ltb_ℤ b amount then some (Reason.insufficient_funds b amount) else none

abbrev pub target_refusal : Option ℤ → ℕ → Option Reason
target_refusal none target = some (Reason.target_not_found target)
target_refusal (some b) target = none

abbrev pub first_refusal : Option Reason → Option Reason → Option Reason
first_refusal (some r) other = some r
first_refusal none other = other

abbrev pub of_source : Option ℕ → ℤ → List Projection → Option Reason
of_source none amount ps = none
of_source (some source) amount ps = source_refusal (projected source ps) source amount

abbrev pub of_target : Option ℕ → List Projection → Option Reason
of_target none ps = none
of_target (some target) ps = target_refusal (projected target ps) target

-- A deposit looks at its target only, a withdrawal at its source only, a transfer at both.
abbrev pub refusal_by : TransactionType → Option ℕ → Option ℕ → ℤ → List Projection → Option Reason
refusal_by deposit source target amount ps = of_target target ps
refusal_by withdrawal source target amount ps = of_source source amount ps
refusal_by transfer source target amount ps =
    first_refusal (of_source source amount ps) (of_target target ps)

abbrev pub refusal : TransactionRequestedPayload → List Projection → Option Reason
refusal p ps = refusal_by p.type p.source_account_id p.target_account_id p.amount ps

-- The row of a request once it is decided.
abbrev pub decided_row : ℕ → Option Reason → Transaction → Transaction
decided_row now none t = record t { status = completed; reason = none; completed_at = some now }
decided_row now (some reason) t = record t { status = rejected; reason = some reason }

-- The one message about it.
abbrev pub verdict : TransactionRequestedPayload → Option Reason → Transaction → Payload
verdict p none t = Payload.transaction_completed (record {
  transaction_id = t.id;
  type = t.type;
  amount = t.amount;
  currency = t.currency;
  source_account_id = t.source_account_id;
  target_account_id = t.target_account_id;
  description = t.description;
})
verdict p (some reason) t = Payload.transaction_rejected (record {
  transaction_id = p.transaction_id;
  type = p.type;
  amount = p.amount;
  reason = reason;
  source_account_id = p.source_account_id;
  target_account_id = p.target_account_id;
})

module _ (env : Env) (event : DomainEvent TransactionRequestedPayload) where
  abbrev pub settled : FinalStatus → Option Reason → Payload → Ledger → Ledger
  settled status reason payload db = record db {
    transactions =
        update_where (λ t. t.id == event.payload.transaction_id) (decide env.now status reason)
          db.transactions;
    outbox = db.outbox ++ (new_message env.message_id payload event.correlation_id env.now ∷ []);
    processed = event.id ∷ db.processed;
  }

  -- The tables after the decision on the request whose row is `t`.
  abbrev pub decided : Transaction → Option Reason → Ledger → Ledger
  decided t refused db = record db {
    transactions =
        update_where (λ u. u.id == event.payload.transaction_id) (decided_row env.now refused)
          db.transactions;
    outbox =
        db.outbox
        ++ (new_message env.message_id (verdict event.payload refused t) event.correlation_id
              env.now
            ∷ []);
    processed = event.id ∷ db.processed;
  }

find-decide :
    (id now : ℕ) (status : FinalStatus) (reason : Option Reason) (ts : List Transaction)
    (t : Transaction)
    → transaction_of id ts ≡ some t
    → transaction_of id (update_where (λ u. u.id == id) (decide now status reason) ts)
      ≡ some (decide now status reason t)
find-decide id now status reason [] t h = ground arith
find-decide id now status reason (u ∷ us) t h =
    ground (arith, find-decide id now status reason us t)

module _ (env : Env) (event : DomainEvent TransactionRequestedPayload) where
  -- The message, then the mark and `COMMIT`.
  closing-Concludes :
      (payload : Payload)
      → Concludes {Db = Ledger}
          (do
            _ ← insert env.message_id env.now payload client event.correlation_id
            mark_processed client event.id
            commit)
          (chain
            (queue env.message_id env.now payload event.correlation_id)
            (λ _. insert_processed event.id))
  unfolding mark_processed
  closing-Concludes payload =
      >>=-Concludes _ _ _ _ (queue-Runs env.message_id env.now payload event.correlation_id)
        (λ _. on_client-commit-Concludes (insert_processed event.id))

module _ (env : Env) (event : DomainEvent TransactionRequestedPayload) (db view : Ledger)
    (new : member event.id db.processed ≡ false)
    (fresh : has_message env.message_id db.outbox ≡ false) where
  closing_lem :
      (rows : List Transaction) (payload : Payload)
      → chain
          (queue env.message_id env.now payload event.correlation_id)
          (λ _. insert_processed event.id)
          (record db { transactions = rows })
        ≡ some (
          tt,
          record db {
            transactions = rows;
            outbox =
                db.outbox ++ (new_message env.message_id payload event.correlation_id env.now ∷ []);
            processed = event.id ∷ db.processed;
          },
        )
  closing_lem rows payload = rw (fresh, new) refl

  pub reject-settles :
      (reason : Reason)
      → reject env event env.message_id reason (calm db view) ≡ (
        ok tt,
        calm
            (settled env event to_rejected (some reason) (rejected_payload env event reason) db)
            (settled env event to_rejected (some reason) (rejected_payload env event reason) db),
      )
  unfolding reject update_status
  reject-settles reason =
      pool_first-Concludes
        (update_status_statement env.now event.payload.transaction_id to_rejected (some reason)) _ _
        db view _ _ _ tt refl (closing-Concludes env event (rejected_payload env event reason))
        (closing_lem _ (rejected_payload env event reason))

  pub complete-settles :
      (t : Transaction)
      → transaction_of event.payload.transaction_id db.transactions ≡ some t
      → complete env event (calm db view)
        ≡ (ok tt, calm (decided env event t none db) (decided env event t none db))
  unfolding complete update_status
  complete-settles t there =
      pool_first-Concludes
        (update_status_statement env.now event.payload.transaction_id to_completed none)
        (announce env event) _ db view _ _ _ tt
        (ap
          (λ o. some (
            o,
            record db {
              transactions =
                  update_where (λ u. u.id == event.payload.transaction_id)
                    (decide env.now to_completed none) db.transactions;
            },
          ))
          (find-decide event.payload.transaction_id env.now to_completed none db.transactions t
            there))
        (closing-Concludes env event (completed_payload (decide env.now to_completed none t)))
        (closing_lem _ (completed_payload (decide env.now to_completed none t)))
