-- ===== src/Graph/Breakers.antt =====
-- The circuit breakers (packages/graphql-gateway/src/utils/service-breakers.ts, circuit-breaker.ts).
-- The library opossum, which opens and closes them, is not part of this code: how a call ends is a
-- parameter. By its documentation a breaker with a fallback resolves to what the fallback returns
-- whenever the call fails, times out or is refused.
use banking_platform.Base.{
  ℕ, ltb, String, Bool, true, false, not, Option, none, some, if◌then◌else◌,
}
use text.Mathlib.Text.{◌==◌ as str_eq}
use banking_platform.Security.Json.{Json, boolean, str, object, end, field}
use banking_platform.Graph.Values.{member_of}

pub data Service : Type 0 where
  customer transaction ai : Service

-- `createFallbackResponse` of each breaker.
abbrev pub fallback : Service → Json
fallback customer = object (
    field "success" (boolean false) (
      field "error"
        (object (
          field "code" (str "SERVICE_UNAVAILABLE") (
            field "message"
              (str "Customer service is temporarily unavailable. Please try again later.") end)))
        end))
fallback transaction = object (
    field "success" (boolean false) (
      field "error"
        (object (
          field "code" (str "SERVICE_UNAVAILABLE") (
            field "message"
              (str
                "Transaction service is temporarily unavailable. Your request has not been processed.")
              end)))
        end))
fallback ai = object (
    field "success" (boolean true) (
      field "data"
        (object (
          field "explanation"
            (str "AI service is temporarily unavailable. Transaction completed successfully.") end))
        end))

-- An error: its message, and `response.data.message` of it.
pub record CallError : Type 0 where
  pub message : String
  pub response_message : Option String

-- How a call of axios ends: with the `data` of the response, or an error.
pub data Called : Type 0 where
  fulfilled : (body : Option Json) → Called
  rejected : CallError → Called

-- How `breaker.fire` ends: with a response, with the fallback, or rejected.
pub data Fired : Type 0 where
  responded : (body : Option Json) → Fired
  fell_back : Fired
  refused : CallError → Fired

-- What the `catch` throws.
abbrev pub rethrown : CallError → CallError
rethrown e =
    if str_eq e.message "Breaker is open"
    then record {
      message = "Service temporarily unavailable due to repeated failures";
      response_message = none;
    }
    else e

-- `callWithCircuitBreaker`: `response.data`.
unfoldable pub call_with_circuit_breaker : Service → Fired → Called
call_with_circuit_breaker service (responded body) = fulfilled body
call_with_circuit_breaker service fell_back = fulfilled (member_of "data" (some (fallback service)))
call_with_circuit_breaker service (refused e) = rejected (rethrown e)

-- What the library tells of a breaker.
pub record Breaker : Type 0 where
  pub name : String
  pub opened : Bool
  pub half_open : Bool
  pub fires : ℕ
  pub successes : ℕ

pub data BreakerState : Type 0 where
  is_open half_open closed : BreakerState

abbrev pub state_of : Breaker → BreakerState
state_of b = if b.opened then is_open else if b.half_open then half_open else closed

-- An entry of `getCircuitBreakersHealth`; `rate` is the printed percentage, whose division and
-- rounding are a parameter.
pub record BreakerHealth : Type 0 where
  pub service : String
  pub state : BreakerState
  pub healthy : Bool
  pub success_rate : String

unfoldable pub breaker_health : (rate : ℕ → ℕ → String) → Breaker → BreakerHealth
breaker_health rate b = record {
  service = b.name;
  state = state_of b;
  healthy = not b.opened;
  success_rate = if ltb 0 b.fires then rate b.successes b.fires else "N/A";
}

-- `CircuitBreakerOptions`; one that is missing is `none`.
pub record BreakerOptions : Type 0 where
  pub timeout : Option ℕ
  pub error_threshold_percentage : Option ℕ
  pub reset_timeout : Option ℕ
  pub rolling_count_timeout : Option ℕ
  pub rolling_count_buckets : Option ℕ

-- What the library is given.
pub record BreakerConfig : Type 0 where
  pub timeout : ℕ
  pub error_threshold_percentage : ℕ
  pub reset_timeout : ℕ
  pub rolling_count_timeout : ℕ
  pub rolling_count_buckets : ℕ
  pub name : String

abbrev pub given_or : ℕ → Option ℕ → ℕ
given_or default none = default
given_or default (some n) = n

-- `{ ...DEFAULT_OPTIONS, ...options, name: serviceName }` of `createHttpCircuitBreaker`.
abbrev pub config_of : String → BreakerOptions → BreakerConfig
config_of service_name options = record {
  timeout = given_or 3000 options.timeout;
  error_threshold_percentage = given_or 50 options.error_threshold_percentage;
  reset_timeout = given_or 30000 options.reset_timeout;
  rolling_count_timeout = given_or 10000 options.rolling_count_timeout;
  rolling_count_buckets = given_or 10 options.rolling_count_buckets;
  name = service_name;
}

abbrev pub three : ℕ → ℕ → ℕ → BreakerOptions
three timeout percentage reset = record {
  timeout = some timeout;
  error_threshold_percentage = some percentage;
  reset_timeout = some reset;
  rolling_count_timeout = none;
  rolling_count_buckets = none;
}

-- The configuration of each breaker.
abbrev pub config_for : Service → BreakerConfig
config_for customer = config_of "customer-service" (three 3000 50 30000)
config_for transaction = config_of "transaction-service" (three 5000 40 60000)
config_for ai = config_of "ai-service" (three 10000 60 20000)
