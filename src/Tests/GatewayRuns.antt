-- ===== src/Tests/GatewayRuns.antt =====
-- The gateway (packages/api-gateway/src) with tokens in the clear, and the middleware of
-- packages/shared/src/security.
use Prim.Native.String.{◌++◌ as ◌<>◌}
use banking_platform.Base.{ℕ, ◌≡◌, ◌↔◌, refl, String, false, Option, none, some, [], All}
use banking_platform.Base.Int.{ℤ}
use banking_platform.Base.Texts.{bearer}
use banking_platform.Gateway.Http.{JwtPayload, Request}
use banking_platform.Gateway.Guards.{Route}
use banking_platform.Gateway.Proxy.{Outgoing, Fetched, answered, Urls, transactions, handle}
use banking_platform.Gateway.Login.{LoginDto}
use banking_platform.Gateway.Access.{IsAuthorized, forge, handle-IsAuthorized, handle-forge}
use banking_platform.Security.Json.{Json, str, array, object, nil, cons, end, field}
use banking_platform.Security.Middleware as Middleware
use banking_platform.Security.Signatures.{check_signature, IsSigned, check_signature-IsSigned}
use banking_platform.Tests.PlainTokens.{plain_tokens, sign}

abbrev holder : JwtPayload
holder = record {
  sub = "u1";
  email = "ana@example.pe";
  role = "customer";
  client_id = none;
  iat = none;
  exp = none;
}

abbrev post : Request
post = record {
  method = "POST";
  path = "/api/v1/transactions";
  original_url = "/api/v1/transactions";
  headers = record {
    authorization = some (bearer (sign 3 holder));
    content_type = none;
    correlation_id = none;
    user_id = some "admin";
    user_role = some "admin";
    user_email = none;
  };
  user = none;
  body = some "{}";
}

abbrev guarded : Route
guarded = record { is_public = false; required_roles = [] }

abbrev fetch : Outgoing → Fetched
fetch out = answered 202 (some "{}")

abbrev urls : Urls
urls = record { customer = "http://c"; transaction = "http://t"; ai = "http://a" }

handle-IsAuthorized_example :
    All
      (IsAuthorized plain_tokens 5 transactions post)
      (handle plain_tokens fetch urls 5 guarded transactions post).1
handle-IsAuthorized_example =
    handle-IsAuthorized plain_tokens fetch urls 5 guarded transactions post refl

handle-forge_example :
    handle plain_tokens fetch urls 5 guarded transactions (forge none (some "readonly") none post)
    ≡ handle plain_tokens fetch urls 5 guarded transactions post
handle-forge_example =
    handle-forge plain_tokens fetch urls 5 guarded transactions none (some "readonly") none post
      refl

abbrev print : ℕ → String
print n = "7"

-- An address that no demo user has, the password of the demo, and a role of one's choice.
abbrev stranger : LoginDto
stranger = record { email = "x@example.pe"; password = "demo"; role = some "admin" }

abbrev script : Json
script = array (cons (str "<b>'hi'</b>") (cons (object (field "<a>" (str "x") end)) nil))

abbrev signed : Middleware.Request
signed = record {
  authorization = none;
  signature = some "{}soonsecret";
  timestamp = some "soon";
  content_type = none;
  content_length = none;
  correlation_header = none;
  body = "{}";
  user = none;
  correlation_id = none;
}

-- `parseInt` of a text that is no number.
abbrev no_number : String → Option ℤ
no_number s = none

abbrev in_clear : String → String
in_clear s = s

-- A time that is no number does not expire.
never_expires :
    check_signature no_number in_clear "secret" 999999999999 signed ≡ Middleware.passed signed
unfolding check_signature
never_expires = refl

check_signature-IsSigned_example :
    (check_signature no_number in_clear "secret" 5 signed ≡ Middleware.passed signed)
    ↔ IsSigned no_number in_clear "secret" 5 signed
check_signature-IsSigned_example = check_signature-IsSigned no_number in_clear "secret" 5 signed
