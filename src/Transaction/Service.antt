-- ===== src/Transaction/Service.antt =====
-- `TransactionService` (packages/transaction-service/src/services/transaction.service.ts). The HTTP
-- call of the customer service is a parameter: how `fetch` answers for an account.
use text.Mathlib.Text.{◌==◌ as str_eq}
use banking_platform.Base.{ℕ, ◌==◌, String, Option, none, some, List, [], ◌∷◌, if◌then◌else◌}
use banking_platform.Base.Int.{ℤ}
use banking_platform.Shared.Errors.{Error, Resource, not_found, duplicate_transaction, validation}
use banking_platform.Shared.Events.{TransactionType, deposit, withdrawal, transfer, Payload}
use banking_platform.Shared.Database.{
  Action, pure, throw, ◌>>=◌, ◌>>◌, client, in_transaction, commit,
}
use banking_platform.Outbox.Repository.{insert}
use banking_platform.Transaction.Repository.{
  Transaction, Ledger, ledger_outbox, new_transaction, create, find_by_id, find_by_idempotency_key,
  find_by_account_id,
}

pub record CreateTransactionInput : Type 0 where
  pub type : TransactionType
  pub amount : ℤ
  pub currency : Option String
  pub source_account_id : Option ℕ
  pub target_account_id : Option ℕ
  pub idempotency_key : String
  pub description : Option String

-- What `uuid()` returns for the transaction and for its message, and the time.
pub record Env : Type 0 where
  pub transaction_id : ℕ
  pub message_id : ℕ
  pub now : ℕ

-- How `fetch` answers: `response.ok`, another status, or an exception.
pub data Response : Type 0 where
  response_ok response_not_ok no_response : Response

-- `currency || 'PEN'`.
abbrev pub or_default : Option String → String → String
or_default none d = d
or_default (some c) d = if str_eq c "" then d else c

-- `validateTransactionInput`: the error that it throws, if any.
unfoldable pub validate : TransactionType → Option ℕ → Option ℕ → Option Error
validate deposit source none = some (validation "Deposit requires a target account")
validate deposit source (some target) = none
validate withdrawal none target = some (validation "Withdrawal requires a source account")
validate withdrawal (some source) target = none
validate transfer none target =
    some (validation "Transfer requires both source and target accounts")
validate transfer (some source) none =
    some (validation "Transfer requires both source and target accounts")
validate transfer (some source) (some target) =
    if source == target then some (validation "Cannot transfer to the same account") else none

-- `[sourceAccountId, targetAccountId].filter(Boolean)`.
abbrev pub given : Option ℕ → List ℕ → List ℕ
given none ids = ids
given (some id) ids = id ∷ ids

abbrev pub account_ids : CreateTransactionInput → List ℕ
account_ids input = given input.source_account_id (given input.target_account_id [])

abbrev pub throw_if : {Db : Type 0} → Option Error → Action Db (Unit {0})
throw_if none = pure tt
throw_if (some e) = throw e

abbrev pub requested : Transaction → Payload
requested t = Payload.transaction_requested (record {
  transaction_id = t.id;
  type = t.type;
  amount = t.amount;
  currency = t.currency;
  source_account_id = t.source_account_id;
  target_account_id = t.target_account_id;
  idempotency_key = t.idempotency_key;
  description = t.description;
})

abbrev pub row_of : Env → CreateTransactionInput → Transaction
row_of env input =
    new_transaction env.transaction_id env.now input.type input.amount
      (or_default input.currency "PEN") input.source_account_id input.target_account_id
      input.idempotency_key input.description

abbrev pub duplicate : String → Option Transaction → Option Error
duplicate key none = none
duplicate key (some _) = some (duplicate_transaction key)

module _ (fetch : ℕ → Response) where
  -- An answer other than `ok` throws; no answer at all is passed over.
  abbrev pub refused : Response → ℕ → Option Error → Option Error
  refused response_ok id rest = rest
  refused response_not_ok id rest = some (not_found Resource.account id)
  refused no_response id rest = rest

  unfoldable pub validate_accounts : List ℕ → Option Error
  validate_accounts [] = none
  validate_accounts (id ∷ ids) = refused (fetch id) id (validate_accounts ids)

  -- `BEGIN` to `COMMIT`: the row is created on the pool, the message on the client.
  abbrev pub store_request : Env → CreateTransactionInput → Option ℕ → Action Ledger Transaction
  store_request env input correlation_id = in_transaction (do
    txn ← create (row_of env input)
    _ ← insert env.message_id env.now (requested txn) client correlation_id
    commit
    pure txn)

  unfoldable pub request_transaction :
      Env → CreateTransactionInput → Option ℕ → Action Ledger Transaction
  unfolding validate find_by_idempotency_key validate_accounts in_transaction create insert
  request_transaction env input correlation_id = do
    throw_if (validate input.type input.source_account_id input.target_account_id)
    existing ← find_by_idempotency_key input.idempotency_key
    throw_if (duplicate input.idempotency_key existing)
    throw_if (validate_accounts (account_ids input))
    store_request env input correlation_id

-- `getTransaction`.
abbrev pub found_or_throw : ℕ → Option Transaction → Action Ledger Transaction
found_or_throw id none = throw (not_found Resource.transaction id)
found_or_throw id (some t) = pure t

unfoldable pub get_transaction : ℕ → Action Ledger Transaction
unfolding find_by_id
get_transaction id = do t ← find_by_id id; found_or_throw id t

unfoldable pub get_account_transactions : ℕ → Action Ledger (List Transaction)
unfolding find_by_account_id
get_account_transactions account_id = find_by_account_id account_id 50
