-- ===== src/Transaction/Storing.antt =====
-- How `requestTransaction` (packages/transaction-service/src/services/transaction.service.ts) runs where
-- no statement fails, by its own checks.
use banking_platform.Base.{
  ℕ, ◌≡◌, refl, Bool, true, false, Option, none, some, [], ◌∷◌, ◌++◌, Bool-cases, inl, inr,
}
use banking_platform.Shared.Errors.{Error, database, Result, ok, err}
use banking_platform.Shared.Database.{
  Session, on_pool, on_client, in_transaction, connect, begin, commit, rollback,
}
use banking_platform.Shared.Database.Progress.{calm}
use banking_platform.Outbox.Repository.{new_message, has_message, insert}
use banking_platform.Transaction.Repository.{
  Transaction, Ledger, ledger_outbox, transaction_refused, create, transaction_of_key,
  find_by_idempotency_key,
}
use banking_platform.Transaction.Service.{
  CreateTransactionInput, Env, Response, validate, account_ids, validate_accounts, requested,
  row_of, duplicate, request_transaction, store_request,
}

-- An action's answer and the tables that it leaves.
abbrev pub reply : {A : Type 0} → Result A × Session Ledger → Result A × Ledger
reply (r, s) = (r, s.db)

abbrev pub first_error : Option Error → Option Error → Option Error
first_error (some e) other = some e
first_error none other = other

module _ (fetch : ℕ → Response) (env : Env) (input : CreateTransactionInput)
    (correlation_id : Option ℕ) where
  abbrev pub checks : Ledger → Option Error
  checks db = first_error (validate input.type input.source_account_id input.target_account_id) (
      first_error
        (duplicate input.idempotency_key (transaction_of_key input.idempotency_key db.transactions))
        (validate_accounts fetch (account_ids input)))

  abbrev pub row_added : Ledger → Ledger
  row_added db = record db { transactions = db.transactions ++ (row_of env input ∷ []) }

  abbrev pub request_added : Ledger → Ledger
  request_added db = record db {
    transactions = db.transactions ++ (row_of env input ∷ []);
    outbox =
        db.outbox
        ++ (new_message env.message_id (requested (row_of env input)) correlation_id env.now ∷ []);
  }

  abbrev pub row_refused : Ledger → Bool
  row_refused db = transaction_refused (row_of env input) db.transactions

  abbrev pub stored_or_not : Bool → Ledger → Result Transaction × Ledger
  stored_or_not true db = (err database, db)
  stored_or_not false db = (ok (row_of env input), request_added db)

  abbrev pub by_checks : Option Error → Ledger → Result Transaction × Ledger
  by_checks (some e) db = (err e, db)
  by_checks none db = stored_or_not (row_refused db) db

  store_request-checks :
      (db view : Ledger)
      → has_message env.message_id db.outbox ≡ false
      → reply (store_request fetch env input correlation_id (calm db view))
        ≡ stored_or_not (row_refused db) db
  unfolding in_transaction connect begin commit rollback create on_pool on_client insert
  store_request-checks db view fresh = elim (Bool-cases (row_refused db)) [
    | inl bad ↦ rw (bad) refl
    | inr good ↦ rw (good, fresh) refl
  ]

pub request_transaction-checks :
    (fetch : ℕ → Response) (env : Env) (input : CreateTransactionInput) (correlation_id : Option ℕ)
    (db view : Ledger)
    → has_message env.message_id db.outbox ≡ false
    → reply (request_transaction fetch env input correlation_id (calm db view))
      ≡ by_checks fetch env input correlation_id (checks fetch env input correlation_id db) db
unfolding request_transaction find_by_idempotency_key on_pool
request_transaction-checks fetch env input correlation_id db view fresh =
    go (validate input.type input.source_account_id input.target_account_id) refl
      (transaction_of_key input.idempotency_key db.transactions) refl
      (validate_accounts fetch (account_ids input)) refl
  where
    go :
        (v : Option Error)
        → validate input.type input.source_account_id input.target_account_id ≡ v
        → (x : Option Transaction) → transaction_of_key input.idempotency_key db.transactions ≡ x
        → (a : Option Error) → validate_accounts fetch (account_ids input) ≡ a
        → reply (request_transaction fetch env input correlation_id (calm db view))
          ≡ by_checks fetch env input correlation_id (checks fetch env input correlation_id db) db
    go (some e) hv x hx a ha = rw (hv) refl
    go none hv (some t) hx a ha = rw (hv, hx) refl
    go none hv none hx (some e) ha = rw (hv, hx, ha) refl
    go none hv none hx none ha =
        rw (hv, hx, ha) (store_request-checks fetch env input correlation_id db view fresh)
