-- ===== src/Gateway/Proxy.antt =====
-- The proxy controllers (packages/api-gateway/src/proxy/proxy.controller.ts). What the upstream
-- service answers to a request is a parameter; the requests that were sent to it are recorded.
use Prim.Native.String.{◌++◌ as ◌<>◌}
use banking_platform.Base.{ℕ, String, Bool, false, Option, none, some, List, [], ◌∷◌, if◌then◌else◌}
use banking_platform.Base.Texts.{includes}
use text.Mathlib.Text.{◌==◌ as str_eq}
use banking_platform.Gateway.Http.{
  JwtPayload, Request, forbidden, Outcome, done, thrown, failure, relayed, Reply, with_status,
  or_default, or_else, Jwt,
}
use banking_platform.Gateway.Guards.{Route, guard, filter_exception}

-- What `fetch` is called with.
pub record Outgoing : Type 0 where
  pub url : String
  pub method : String
  pub content_type : String
  pub correlation_id : String
  pub user_id : String
  pub user_role : String
  pub user_email : String
  pub body : Option String

-- How `fetch` ends: an answer, with its JSON if it is one, or an error.
pub data Fetched : Type 0 where
  answered : (status : ℕ) (json : Option String) → Fetched
  timed_out : Fetched
  failed : Fetched

abbrev pub role_of : Option JwtPayload → Option String
role_of none = none
role_of (some p) = some (p.role)

abbrev pub is_allowed : Option String → List String → Bool
is_allowed none allowed = false
is_allowed (some role) allowed = if str_eq role "" then false else includes role allowed

-- `checkRole`; the message's roles are left out.
unfoldable pub check_role : Request → List String → Outcome Request
check_role req allowed =
    if is_allowed (or_else (role_of req.user) req.headers.user_role) allowed
    then done req
    else thrown (forbidden "Role not allowed")

abbrev pub outgoing : String → Request → Outgoing
outgoing base req = record {
  url = base <> req.original_url;
  method = req.method;
  content_type = or_default req.headers.content_type "application/json";
  correlation_id = or_default req.headers.correlation_id "";
  user_id = or_default req.headers.user_id "";
  user_role = or_default req.headers.user_role "";
  user_email = or_default req.headers.user_email "";
  body = if includes req.method ("POST" ∷ "PUT" ∷ "PATCH" ∷ []) then req.body else none;
}

abbrev pub reply_of : Fetched → Reply
reply_of (answered status json) = with_status status (relayed json)
reply_of timed_out = with_status 502 (failure "BAD_GATEWAY" "Upstream timeout")
reply_of failed = with_status 502 (failure "BAD_GATEWAY" "Upstream error")

-- The answer, and the requests that were sent upstream.
abbrev pub Handled : Type 0
Handled = Reply × List Outgoing

-- `proxyRequest`.
unfoldable pub proxy_request : (Outgoing → Fetched) → String → Request → Handled
proxy_request fetch base req = (reply_of (fetch (outgoing base req)), outgoing base req ∷ [])

-- The controllers, by the service behind them.
pub data Controller : Type 0 where
  clients accounts transactions ai : Controller

abbrev pub write_roles : List String
write_roles = "customer" ∷ "admin" ∷ []

abbrev pub read_roles : List String
read_roles = "customer" ∷ "admin" ∷ "readonly" ∷ []

abbrev pub ai_roles : List String
ai_roles = "customer" ∷ "admin" ∷ "readonly" ∷ []

abbrev pub allowed_roles : Controller → String → List String
allowed_roles clients method = if str_eq method "GET" then read_roles else write_roles
allowed_roles accounts method = if str_eq method "GET" then read_roles else write_roles
allowed_roles transactions method = if str_eq method "GET" then read_roles else write_roles
allowed_roles ai method = ai_roles

pub record Urls : Type 0 where
  pub customer : String
  pub transaction : String
  pub ai : String

abbrev pub target_base : Urls → Controller → String
target_base urls clients = urls.customer
target_base urls accounts = urls.customer
target_base urls transactions = urls.transaction
target_base urls ai = urls.ai

abbrev pub if_done : Outcome Request → (Request → Handled) → Handled
if_done (done req) f = f req
if_done (thrown e) f = (filter_exception e, [])

module _ (jwt : Jwt) (fetch : Outgoing → Fetched) (urls : Urls) where
  -- `proxyRoot` and `proxy` of the controllers.
  unfoldable pub proxy : Controller → Request → Handled
  proxy controller req =
      if_done (check_role req (allowed_roles controller req.method))
        (proxy_request fetch (target_base urls controller))

  -- A request to a proxied route: the guards, then the controller; the filter answers exceptions.
  unfoldable pub handle : (now : ℕ) → Route → Controller → Request → Handled
  handle now route controller req = if_done (guard jwt now route req) (proxy controller)
