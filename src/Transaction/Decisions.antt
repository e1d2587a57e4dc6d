-- ===== src/Transaction/Decisions.antt =====
-- The saga (packages/transaction-service/src/saga/transaction.saga.ts) where no statement fails:
-- which requests it completes, and what it leaves in the tables.
use banking_platform.Base.{
  ℕ, ◌≡◌, refl, ap, ◌∙◌, false, Option, none, some, List, if◌then◌else◌, Bool-cases, inl, inr,
}
use banking_platform.Base.Int.{ℤ, ltb_ℤ}
use banking_platform.Shared.Errors.{ok}
use banking_platform.Shared.Events.{
  TransactionType, deposit, withdrawal, transfer, Reason, TransactionRequestedPayload, DomainEvent,
}
use banking_platform.Shared.Database.{on_pool, Action, and_then, or_catch, ◌>>◌}
use banking_platform.Shared.Database.Progress.{calm}
use banking_platform.Shared.Tracker.{member, is_processed}
use banking_platform.Outbox.Repository.{has_message}
use banking_platform.Transaction.Repository.{
  Transaction, Projection, Ledger, transaction_of, projected, exists, get_balance, ledger_processed,
  ledger_outbox,
}
use banking_platform.Transaction.Saga.{
  Env, reject, on_transaction_requested, check_source, check_target, balance_checked, unless_seen,
  source_to_check, target_to_check,
}
use banking_platform.Transaction.Settling.{
  refusal, refusal_by, first_refusal, of_source, of_target, decided, reject-settles,
  complete-settles,
}

first_refusal-none : (r : Option Reason) → first_refusal r none ≡ r
first_refusal-none none = refl
first_refusal-none (some reason) = refl

module _ (env : Env) (event : DomainEvent TransactionRequestedPayload) (db view : Ledger)
    (new : member event.id db.processed ≡ false)
    (fresh : has_message env.message_id db.outbox ≡ false) (t : Transaction)
    (there : transaction_of event.payload.transaction_id db.transactions ≡ some t) where
  abbrev Decides : Action Ledger (Unit {0}) → Option Reason → Type 0
  Decides m refused =
      m (calm db view)
      ≡ (ok tt, calm (decided env event t refused db) (decided env event t refused db))

  check_target-Decides :
      (target : Option ℕ)
      → Decides (check_target env event target) (of_target target db.projections)
  unfolding exists on_pool
  check_target-Decides none = complete-settles env event db view new fresh t there
  check_target-Decides (some target) = go (projected target db.projections) refl
    where
      go :
          (b : Option ℤ)
          → projected target db.projections ≡ b
          → Decides (check_target env event (some target)) (of_target (some target) db.projections)
      go none h = rw h (reject-settles env event db view new fresh (Reason.target_not_found target))
      go (some b) h = rw h (complete-settles env event db view new fresh t there)

  balance_checked-Decides :
      (b : ℤ)
      → Decides (balance_checked env event (some b)) (
          first_refusal
            (if ltb_ℤ b event.payload.amount
              then some (Reason.insufficient_funds b event.payload.amount)
              else none)
            (of_target
              (target_to_check event.payload.type event.payload.target_account_id)
              db.projections))
  balance_checked-Decides b = elim (Bool-cases (ltb_ℤ b event.payload.amount)) [
    | inl short ↦ rw (short) (
        reject-settles env event db view new fresh
          (Reason.insufficient_funds b event.payload.amount))
    | inr enough ↦
        rw (enough) (
          check_target-Decides (target_to_check event.payload.type event.payload.target_account_id))
  ]

  check_source-Decides :
      (source : Option ℕ)
      → Decides (check_source env event source) (
          first_refusal (of_source source event.payload.amount db.projections) (
            of_target
              (target_to_check event.payload.type event.payload.target_account_id)
              db.projections))
  unfolding exists get_balance on_pool
  check_source-Decides none =
      check_target-Decides (target_to_check event.payload.type event.payload.target_account_id)
  check_source-Decides (some source) = go (projected source db.projections) refl
    where
      go :
          (b : Option ℤ)
          → projected source db.projections ≡ b
          → Decides (check_source env event (some source)) (
              first_refusal (of_source (some source) event.payload.amount db.projections) (
                of_target
                  (target_to_check event.payload.type event.payload.target_account_id)
                  db.projections))
      go none h = rw h (reject-settles env event db view new fresh (Reason.source_not_found source))
      go (some b) h = rw (h, h) (balance_checked-Decides b)

-- The two accounts that the handler looks at are those that the type asks for.
refusal-checks :
    (type : TransactionType) (source target : Option ℕ) (amount : ℤ) (ps : List Projection)
    → first_refusal
        (of_source (source_to_check type source) amount ps)
        (of_target (target_to_check type target) ps)
      ≡ refusal_by type source target amount ps
refusal-checks deposit source target amount ps = refl
refusal-checks withdrawal source target amount ps = first_refusal-none (of_source source amount ps)
refusal-checks transfer source target amount ps = refl

-- If no statement fails for reasons of its own, the event is new, its message's identifier is
-- unused and the transaction has a row, the saga returns, and the committed tables are those of the
-- decision: the transaction is completed if nothing is against it by the projected balances, and
-- else rejected with the first reason (no such source, too little money there, no such target); its
-- row, the one message to announce it and the mark of the event are written, and nothing else.
pub on_transaction_requested-Decides :
    (env : Env) (event : DomainEvent TransactionRequestedPayload) (db view : Ledger)
    (t : Transaction)
    → member event.id db.processed ≡ false
    → has_message env.message_id db.outbox ≡ false
    → transaction_of event.payload.transaction_id db.transactions ≡ some t
    → on_transaction_requested env event (calm db view) ≡ (
      ok tt,
      calm
          (decided env event t (refusal event.payload db.projections) db)
          (decided env event t (refusal event.payload db.projections) db),
    )
unfolding on_transaction_requested is_processed on_pool
on_transaction_requested-Decides env event db view t new fresh there =
    ap (λ seen. unless_seen env event seen (calm db view)) new
    ∙ ap (λ p. or_catch p (λ e. reject env event env.second_message_id (Reason.processing_error e)))
        (check_source-Decides env event db view new fresh t there
          (source_to_check event.payload.type event.payload.source_account_id))
    ∙ ap (λ r. (ok tt, calm (decided env event t r db) (decided env event t r db)))
        (refusal-checks event.payload.type event.payload.source_account_id
          event.payload.target_account_id event.payload.amount db.projections)

-- The balances that the saga reads do not change when it completes a request. So of two requests
-- that each could be paid by the balances before the first, it completes both, also if the two
-- together take more than there is.
pub on_transaction_requested-completes_both :
    (env env' : Env) (event event' : DomainEvent TransactionRequestedPayload) (db view : Ledger)
    (t t' : Transaction)
    → member event.id db.processed ≡ false
    → has_message env.message_id db.outbox ≡ false
    → transaction_of event.payload.transaction_id db.transactions ≡ some t
    → member event'.id (decided env event t none db).processed ≡ false
    → has_message env'.message_id (decided env event t none db).outbox ≡ false
    → transaction_of event'.payload.transaction_id (decided env event t none db).transactions
      ≡ some t'
    → refusal event.payload db.projections ≡ none
    → refusal event'.payload db.projections ≡ none
    → (on_transaction_requested env event >> on_transaction_requested env' event') (calm db view)
      ≡ (
        ok tt,
        calm
            (decided env' event' t' none (decided env event t none db))
            (decided env' event' t' none (decided env event t none db)),
      )
on_transaction_requested-completes_both env env' event event' db view t t' new fresh there new'
      fresh' there' fine fine' =
    ap (λ p. and_then p (λ _. on_transaction_requested env' event'))
      (on_transaction_requested-Decides env event db view t new fresh there
        ∙ ap (λ r. (ok tt, calm (decided env event t r db) (decided env event t r db))) fine)
    ∙ on_transaction_requested-Decides env' event' (decided env event t none db)
        (decided env event t none db) t' new' fresh' there'
    ∙ ap
        (λ r. (
          ok tt,
          calm (decided env' event' t' r (decided env event t none db))
              (decided env' event' t' r (decided env event t none db)),
        ))
        fine'
