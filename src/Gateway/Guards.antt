-- ===== src/Gateway/Guards.antt =====
-- The guards of every route (packages/api-gateway/src/common/guards), in the order in which
-- app.module.ts provides them, and the filter that answers exceptions. What the decorators `Public`
-- and `Roles` say of a route, which the framework's reflector reads, is a record.
use banking_platform.Base.{
  ℕ, String, Bool, false, ◌||◌, Option, none, some, List, [], ◌∷◌, if◌then◌else◌,
}
use banking_platform.Base.Texts.{starts_with, drop, includes}
use text.Mathlib.Text.{◌==◌ as str_eq}
use banking_platform.Gateway.Http.{
  JwtPayload, Request, Exception, bad_request, unauthorized, forbidden, other, Outcome, done,
  thrown, and_then, failure, Reply, with_status, Verified, verified, expired, invalid, Jwt,
}

-- `requiredRoles` is empty if the decorator is missing.
pub record Route : Type 0 where
  pub is_public : Bool
  pub required_roles : List String

abbrev pub public_paths : List String
public_paths = "/health" ∷ "/auth/login" ∷ []

abbrev pub begins_public : String → List String → Bool
begins_public path [] = false
begins_public path (p ∷ ps) = (str_eq path p || starts_with path p) || begins_public path ps

-- The request with the user of its token, in the headers too.
abbrev pub identified : JwtPayload → Request → Request
identified p req = record req {
  user = some p;
  headers = record (req.headers) {
    user_id = some (p.sub);
    user_role = some (p.role);
    user_email = some (p.email);
  };
}

abbrev pub admit : Verified → Request → Outcome Request
admit (verified p) req = done (identified p req)
admit expired req = thrown (unauthorized "Token expired")
admit invalid req = thrown (unauthorized "Invalid token")

abbrev pub check_header : Jwt → ℕ → Option String → Request → Outcome Request
check_header jwt now none req = thrown (unauthorized "Bearer token required")
check_header jwt now (some header) req =
    if starts_with header "Bearer "
    then admit (jwt.verify now (drop 7 header)) req
    else thrown (unauthorized "Bearer token required")

-- `JwtAuthGuard.canActivate`.
unfoldable pub jwt_guard : Jwt → ℕ → Route → Request → Outcome Request
jwt_guard jwt now route req =
    if begins_public req.path public_paths || route.is_public
    then done req
    else check_header jwt now req.headers.authorization req

abbrev pub check_user : Option JwtPayload → List String → Request → Outcome Request
check_user none required req = thrown (forbidden "Role 'undefined' not allowed")
check_user (some p) required req =
    if includes p.role required then done req else thrown (forbidden "Role not allowed")

abbrev pub check_required : List String → Request → Outcome Request
check_required [] req = done req
check_required (r ∷ rs) req = check_user req.user (r ∷ rs) req

-- `RolesGuard.canActivate`; the message's roles are left out.
unfoldable pub roles_guard : Route → Request → Outcome Request
roles_guard route req =
    if begins_public req.path public_paths
    then done req
    else check_required route.required_roles req

-- The two guards, one after the other.
unfoldable pub guard : Jwt → ℕ → Route → Request → Outcome Request
guard jwt now route req = and_then (jwt_guard jwt now route req) (roles_guard route)

abbrev pub status_of : Exception → ℕ
status_of (bad_request _) = 400
status_of (unauthorized _) = 401
status_of (forbidden _) = 403
status_of (other _) = 500

abbrev pub code_of : Exception → String
code_of (bad_request _) = "HTTP_ERROR"
code_of (unauthorized _) = "UNAUTHORIZED"
code_of (forbidden _) = "FORBIDDEN"
code_of (other _) = "INTERNAL_ERROR"

abbrev pub message_of : Exception → String
message_of (bad_request m) = m
message_of (unauthorized m) = m
message_of (forbidden m) = m
message_of (other m) = m

-- `AllExceptionsFilter.catch`.
unfoldable pub filter_exception : Exception → Reply
filter_exception e = with_status (status_of e) (failure (code_of e) (message_of e))
