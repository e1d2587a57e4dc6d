-- ===== src/Transaction/Balances.antt =====
-- The projection (packages/transaction-service/src/subscribers/index.ts): what it makes of the
-- balances that the customer service announces, and what becomes of an initial deposit that fails.
use banking_platform.Base.{
  ℕ, ==_refl, ◌≡◌, ◌≢◌, refl, String, true, false, none, some, List, [], ◌∷◌, arith,
}
use banking_platform.Base.Int.{ℤ, pos, ltb_ℤ}
use banking_platform.Shared.Errors.{ok}
use banking_platform.Shared.Events.{AccountCreatedPayload, BalanceUpdatedPayload, DomainEvent}
use banking_platform.Shared.Database.{Session, on_pool, connect, begin, rollback}
use banking_platform.Shared.Database.Progress.{calm}
use banking_platform.Shared.Tracker.{member, is_processed, mark_processed}
use banking_platform.Transaction.Repository.{
  Projection, Ledger, upsert, upsert_row, projected, find_by_idempotency_key, transaction_of_key,
}
use banking_platform.Transaction.Projection.{
  Env, initial_key, on_account_created, on_balance_updated,
}

projected-upsert_row :
    (id : ℕ) (balance : ℤ) (currency : String) (ps : List Projection)
    → projected id (upsert_row id balance currency ps) ≡ some balance
projected-upsert_row id balance currency [] = ground (arith, ==_refl id)
projected-upsert_row id balance currency (p ∷ ps) =
    ground (arith, ==_refl id, projected-upsert_row id balance currency ps)

projected-upsert_other :
    (other id : ℕ) (balance : ℤ) (currency : String) (ps : List Projection)
    → other ≢ id
    → projected other (upsert_row id balance currency ps) ≡ projected other ps
projected-upsert_other other id balance currency [] h = ground arith
projected-upsert_other other id balance currency (p ∷ ps) h =
    ground (arith, projected-upsert_other other id balance currency ps h)

-- The tables after an announcement.
abbrev pub announced : DomainEvent BalanceUpdatedPayload → Ledger → Ledger
announced event db = record db {
  projections = upsert_row event.payload.account_id event.payload.new_balance "PEN" db.projections;
  processed = event.id ∷ db.processed;
}

-- If no statement fails for reasons of its own and the event is new, the projection of its account
-- becomes the balance that it announces, whatever it was before; any other account keeps its
-- projection; the transactions and the outbox stay as they are; and a second delivery of the event
-- changes nothing.
pub on_balance_updated-projects :
    (event : DomainEvent BalanceUpdatedPayload) (db view : Ledger) (other : ℕ)
    → other ≢ event.payload.account_id
    → member event.id db.processed ≡ false
    → (on_balance_updated event (calm db db)
        ≡ (ok tt, calm (announced event db) (announced event db)))
      × (projected event.payload.account_id (announced event db).projections
          ≡ some event.payload.new_balance)
      × (projected other (announced event db).projections ≡ projected other db.projections)
      × (on_balance_updated event (calm (announced event db) view)
          ≡ (ok tt, calm (announced event db) view))
unfolding on_balance_updated is_processed mark_processed upsert on_pool
on_balance_updated-projects event db view other h new = (
  rw (new, new) refl,
  projected-upsert_row event.payload.account_id event.payload.new_balance "PEN" db.projections,
  projected-upsert_other other event.payload.account_id event.payload.new_balance "PEN"
      db.projections h,
  rw (==_refl) refl,
)

-- The tables after the first part of the handler of a new account.
abbrev pub seeded : DomainEvent AccountCreatedPayload → Ledger → Ledger
seeded event db = record db {
  projections = upsert_row event.payload.account_id (pos 0) event.payload.currency db.projections;
  processed = event.id ∷ db.processed;
}

-- The five statements up to the connection go through, and `BEGIN` fails.
abbrev pub deposit_fails : Ledger → Session Ledger
deposit_fails db = record {
  db = db;
  view = db;
  aborted = false;
  faults = false ∷ false ∷ false ∷ false ∷ false ∷ true ∷ [];
}

-- The event of a new account is marked before its initial deposit is stored, and a failure there is
-- only logged. So if storing the deposit fails, the handler returns as if all were well, with the
-- account at zero, no transaction and no message for the deposit, and a second delivery of the
-- event changes nothing: the initial deposit is lost.
pub on_account_created-loses_deposit :
    (show : ℕ → String) (env env' : Env) (event : DomainEvent AccountCreatedPayload)
    (db view : Ledger)
    → member event.id db.processed ≡ false
    → ltb_ℤ (pos 0) event.payload.initial_balance ≡ true
    → transaction_of_key (initial_key show env event) db.transactions ≡ none
    → (on_account_created show env event (deposit_fails db)
        ≡ (ok tt, calm (seeded event db) (seeded event db)))
      × (on_account_created show env' event (calm (seeded event db) view)
          ≡ (ok tt, calm (seeded event db) view))
unfolding on_account_created is_processed mark_processed upsert find_by_idempotency_key on_pool
    connect begin rollback
on_account_created-loses_deposit show env env' event db view new positive first =
    (rw (new, new, positive, first) refl, rw (==_refl) refl)
