-- ===== src/Controllers.antt =====
-- The controllers of the customer and the transaction service, what the validation pipe lets through
-- to them (the DTO classes), and the filter that answers errors (common/filters of each service).
-- The framework is not part of this code; of a message only its code is kept.
pub mod Customer
pub mod Transactions
pub mod Ai
pub mod Statuses
pub mod Risks
use banking_platform.Base.{
  ℕ, ◌==◌, String, Bool, true, false, ◌||◌, Option, none, some, if◌then◌else◌,
}
use text.Mathlib.Text.{◌==◌ as str_eq}
use banking_platform.Shared.Errors.{Error, Result, ok, err}
use banking_platform.Shared.Database.{Session, Action}

-- `{ success: true, data }` or `{ success: false, error: { code } }`, with the status.
pub data HttpAnswer (A : Type 0) : Type 0 where
  success : (status : ℕ) → A → HttpAnswer A
  failure : (status : ℕ) (code : String) → HttpAnswer A

-- What a handler throws: an exception of the framework with its status, or any other error.
pub data Thrown : Type 0 where
  http_exception : (status : ℕ) → Thrown
  other_error : Error → Thrown

abbrev pub code_of_status : ℕ → String
code_of_status status =
    if status == 401
    then "UNAUTHORIZED"
    else if status == 403
    then "FORBIDDEN"
    else if status == 404
    then "NOT_FOUND"
    else "HTTP_ERROR"

-- `AllExceptionsFilter.catch`.
unfoldable pub catch_exception : {A : Type 0} → Thrown → HttpAnswer A
catch_exception (http_exception status) = failure status (code_of_status status)
catch_exception (other_error e) = failure 500 "INTERNAL_ERROR"

abbrev pub answer_of : {A : Type 0} → ℕ → Result A → HttpAnswer A
answer_of status (ok a) = success status a
answer_of status (err e) = catch_exception (other_error e)

-- A handler: `await` the service, then `{ success: true, data }` with the handler's status.
abbrev pub respond : {Db A : Type 0} → ℕ → Action Db A → Session Db → HttpAnswer A × Session Db
respond status action s = (answer_of status (action s).0, (action s).1)

-- The validation pipe in front of a handler.
abbrev pub validated :
    {Db A : Type 0}
    → Bool
    → (Session Db → HttpAnswer A × Session Db)
    → Session Db
    → HttpAnswer A × Session Db
validated true handler s = handler s
validated false handler s = (catch_exception (http_exception 400), s)

-- `@IsOptional() @IsIn(['PEN', 'USD'])`.
abbrev pub is_currency : Option String → Bool
is_currency none = true
is_currency (some c) = str_eq c "PEN" || str_eq c "USD"
