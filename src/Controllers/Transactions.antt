-- ===== src/Controllers/Transactions.antt =====
-- `TransactionsController` (packages/transaction-service/src/transactions) and its DTO class. Amounts
-- are whole cents.
use banking_platform.Base.{ℕ, Bool, not, ◌&&◌, none, List}
use text.Mathlib.Text.{◌==◌ as str_eq}
use banking_platform.Base.Int.{pos, leb_ℤ}
use banking_platform.Shared.Database.{Session}
use banking_platform.Transaction.Repository.{Ledger, Transaction}
use banking_platform.Transaction.Service.{
  Env, Response, CreateTransactionInput, request_transaction, get_transaction,
  get_account_transactions,
}
use banking_platform.Controllers.{HttpAnswer, respond, validated, is_currency}

-- `CreateTransactionDto`.
abbrev pub is_transaction_dto : CreateTransactionInput → Bool
is_transaction_dto dto =
    leb_ℤ (pos 1) dto.amount && is_currency dto.currency && not (str_eq dto.idempotency_key "")

unfoldable pub post_transaction :
    (ℕ → Response)
    → Env
    → CreateTransactionInput
    → Session Ledger
    → HttpAnswer Transaction × Session Ledger
post_transaction fetch env dto =
    validated (is_transaction_dto dto) (respond 202 (request_transaction fetch env dto none))

unfoldable pub find_one_transaction : ℕ → Session Ledger → HttpAnswer Transaction × Session Ledger
find_one_transaction id = respond 200 (get_transaction id)

unfoldable pub get_by_account : ℕ → Session Ledger → HttpAnswer (List Transaction) × Session Ledger
get_by_account account_id = respond 200 (get_account_transactions account_id)
