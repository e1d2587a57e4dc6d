-- ===== src/Graph/Resolvers.antt =====
-- The resolvers of packages/graphql-gateway/src/schema/resolvers.ts. How each call ends is given;
-- which of them a resolver makes is its code. `includes('unavailable')` is a parameter.
use banking_platform.Base.{ℕ, String, Bool, true, false, Option, none, some, if◌then◌else◌}
use banking_platform.Base.Int.{ℤ}
use text.Mathlib.Text.{◌==◌ as str_eq}
use banking_platform.Security.Json.{Json, null, str, array, nil, cons}
use banking_platform.Graph.Values.{
  Evaluated, value, type_error, then_value, member_of, unwrap, normalize_option, normalize_list,
  limit_list,
}
use banking_platform.Graph.Breakers.{
  customer, transaction, ai, CallError, Called, fulfilled, rejected, Fired,
  call_with_circuit_breaker,
}

-- What a resolver answers: a value, or a `GraphQLError`.
pub data Resolved : Type 0 where
  returned : Option Json → Resolved
  graphql_error : (message code : String) → Resolved

-- `a || b` of messages.
abbrev pub or_message : Option String → String → String
or_message none b = b
or_message (some s) b = if str_eq s "" then b else s

-- `try { return unwrap(…) } catch { throw new GraphQLError(…) }`.
abbrev pub or_error : (CallError → String) → (CallError → String) → Called → Resolved
or_error message code (fulfilled body) = returned (unwrap body)
or_error message code (rejected e) = graphql_error (message e) (code e)

-- `error.response?.data?.message || fallback`.
abbrev pub message_or : String → CallError → String
message_or fallback e = or_message e.response_message fallback

-- `error.response?.data?.message || error.message || fallback`.
abbrev pub any_message_or : String → CallError → String
any_message_or fallback e = or_message e.response_message (or_message (some (e.message)) fallback)

-- What the code after a call does with `undefined` or a `TypeError` in it.
abbrev pub or_type_error : String → String → Evaluated (Option Json) → Resolved
or_type_error message code (value v) = returned v
or_type_error message code type_error = graphql_error message code

-- `list ?? []`.
abbrev pub list_or_empty : Option Json → Json
list_or_empty none = array nil
list_or_empty (some null) = array nil
list_or_empty (some v) = v

abbrev pub as_option : Evaluated Json → Evaluated (Option Json)
as_option (value v) = value (some v)
as_option type_error = type_error

module _ (says_unavailable : String → Bool) where
  unfoldable pub client : Fired → Resolved
  client fired =
      or_error (any_message_or "Client not found")
        (λ e. if says_unavailable e.message then "SERVICE_UNAVAILABLE" else "NOT_FOUND")
        (call_with_circuit_breaker customer fired)

unfoldable pub clients : Fired → Resolved
clients fired =
    or_error (any_message_or "Failed to fetch clients") (λ _. "SERVICE_UNAVAILABLE")
      (call_with_circuit_breaker customer fired)

unfoldable pub account : Called → Resolved
account called = or_error (message_or "Account not found") (λ _. "NOT_FOUND") called

unfoldable pub accounts_by_client : Called → Resolved
accounts_by_client called =
    or_error (message_or "Failed to fetch accounts") (λ _. "INTERNAL_SERVER_ERROR") called

-- The mutations `createClient` and `createAccount`.
unfoldable pub create_client : Called → Resolved
create_client called = or_error (message_or "Failed to create client") (λ _. "BAD_REQUEST") called

unfoldable pub create_account : Called → Resolved
create_account called = or_error (message_or "Failed to create account") (λ _. "BAD_REQUEST") called

module _ (upper : String → String) (index : ℕ → String) where
  abbrev pub normalized_or : String → String → Called → Resolved
  normalized_or message code (fulfilled body) =
      or_type_error message code (normalize_option upper index (unwrap body))
  normalized_or message code (rejected e) = graphql_error (message_or message e) code

  -- The query `transaction`.
  unfoldable pub transaction_by_id : Fired → Resolved
  transaction_by_id fired =
      normalized_or "Transaction not found" "NOT_FOUND"
        (call_with_circuit_breaker transaction fired)

  -- The mutation `requestTransaction`.
  unfoldable pub request_transaction : Called → Resolved
  request_transaction called = normalized_or "Failed to request transaction" "BAD_REQUEST" called

  abbrev pub listed_or : Option ℤ → Called → Resolved
  listed_or limit (fulfilled body) =
      or_type_error "Failed to fetch transactions" "INTERNAL_SERVER_ERROR" (
        as_option (
          then_value (limit_list limit (list_or_empty (unwrap body))) (normalize_list upper index)))
  listed_or limit (rejected e) =
      graphql_error (message_or "Failed to fetch transactions" e) "INTERNAL_SERVER_ERROR"

  abbrev pub for_account : Option String → Resolved → Resolved
  for_account none found = returned (some (array nil))
  for_account (some id) found = if str_eq id "" then returned (some (array nil)) else found

  -- The query `transactions`.
  unfoldable pub transactions : Option String → Option ℤ → Fired → Resolved
  transactions account_id limit fired =
      for_account account_id (listed_or limit (call_with_circuit_breaker transaction fired))

  abbrev pub or_empty_list : Evaluated Json → Resolved
  or_empty_list (value v) = returned (some v)
  or_empty_list type_error = returned (some (array nil))

  abbrev pub listed_or_empty : Called → Resolved
  listed_or_empty (fulfilled body) =
      or_empty_list (normalize_list upper index (list_or_empty (unwrap body)))
  listed_or_empty (rejected e) = returned (some (array nil))

  -- `Account.transactions`.
  unfoldable pub account_transactions : Fired → Resolved
  account_transactions fired = listed_or_empty (call_with_circuit_breaker transaction fired)

-- `Client.accounts`.
unfoldable pub client_accounts : Called → Resolved
client_accounts (fulfilled body) = returned (some (list_or_empty (unwrap body)))
client_accounts (rejected e) = returned (some (array nil))

-- `Account.client`.
unfoldable pub account_client : Called → Resolved
account_client (fulfilled body) = returned (unwrap body)
account_client (rejected e) = returned (some null)

-- `list[0].explanation`, with `null` for the `TypeError` that the resolver catches.
abbrev pub explanation_of : Json → Option Json
explanation_of null = some null
explanation_of v = member_of "explanation" (some v)

-- `list.length > 0 ? list[0].explanation : null`; what is no array and no text has no length (no
-- object is given a field `length`).
abbrev pub first_explanation : Json → Option Json
first_explanation (array (cons v items)) = explanation_of v
first_explanation (str s) = if str_eq s "" then some null else none
first_explanation _ = some null

abbrev pub explanation_in : Called → Resolved
explanation_in (fulfilled body) = returned (first_explanation (list_or_empty (unwrap body)))
explanation_in (rejected e) = returned (some null)

abbrev pub for_transaction : Bool → Resolved → Resolved
for_transaction false found = returned (some null)
for_transaction true found = found

-- `Transaction.explanation`; `has_id` is whether `parent.id` counts as true.
unfoldable pub explanation : (has_id : Bool) → Fired → Resolved
explanation has_id fired =
    for_transaction has_id (explanation_in (call_with_circuit_breaker ai fired))

abbrev pub word_of : Called → String
word_of (fulfilled _) = "healthy"
word_of (rejected _) = "unhealthy"

-- The query `health`.
pub record Health : Type 0 where
  pub status : String
  pub customer_service : String
  pub transaction_service : String
  pub ai_service : String

unfoldable pub health : Called → Called → Called → Health
health customer_call transaction_call ai_call = record {
  status = "healthy";
  customer_service = word_of customer_call;
  transaction_service = word_of transaction_call;
  ai_service = word_of ai_call;
}
