-- ===== src/Shared/Errors.antt =====
-- The errors of packages/shared/src/utils/errors.ts, and the plain `Error`s that the services throw.
use banking_platform.Base.{ℕ, String, Option, none, some}

pub data Resource : Type 0 where
  client account transaction : Resource

pub data Error : Type 0 where
  not_found : Resource → ℕ → Error
  conflict : (email : String) → Error
  insufficient_funds : (account_id : ℕ) → Error
  duplicate_transaction : (idempotency_key : String) → Error
  validation : (message : String) → Error
  -- a statement that the database refused
  database : Error
  -- a read of a field of `undefined`
  type_error : Error
  -- the language model gave no answer
  llm_failed : Error
  failed_to_debit failed_to_credit : (account_id : ℕ) → Error

-- `statusCode` of an `AppError`; the others are no `AppError`s.
unfoldable pub status_code : Error → Option ℕ
status_code (not_found _ _) = some 404
status_code (conflict _) = some 409
status_code (insufficient_funds _) = some 422
status_code (duplicate_transaction _) = some 409
status_code (validation _) = some 400
status_code database = none
status_code type_error = none
status_code llm_failed = none
status_code (failed_to_debit _) = none
status_code (failed_to_credit _) = none

pub data Result {ℓ} (A : Type ℓ) : Type ℓ where
  ok : A → Result A
  err : Error → Result A
