-- ===== src/Security/Middleware.antt =====
-- The middleware of packages/shared/src/security/owasp-middleware.ts and
-- packages/shared/src/middleware/correlation.ts, and `createErrorHandler` of
-- packages/shared/src/utils/error-handler.ts. A middleware answers, or passes a request on. Of the
-- messages only the codes are kept. `parseInt` is a parameter, `none` where it gives NaN.
use banking_platform.Base.{
  ℕ, ltb, String, Bool, false, not, ◌&&◌, ◌||◌, Option, none, some, List, [], ◌∷◌, if◌then◌else◌,
}
use banking_platform.Base.Int.{ℤ, pos, ltb_ℤ}
use banking_platform.Base.Texts.{starts_with, drop, includes}
use text.Mathlib.Text.{◌==◌ as str_eq}
use banking_platform.Shared.Errors.{Error, status_code}

pub record User : Type 0 where
  pub id : String
  pub role : String

-- What the middleware reads of a request; `body` is `JSON.stringify(req.body)`.
pub record Request : Type 0 where
  pub authorization : Option String
  pub signature : Option String
  pub timestamp : Option String
  pub content_type : Option String
  pub content_length : Option String
  pub correlation_header : Option String
  pub body : String
  pub user : Option User
  pub correlation_id : Option String

pub data Passage : Type 0 where
  passed : Request → Passage
  answered : (status : ℕ) (code : String) → Passage

-- `if (!value)` for a text that may be missing.
abbrev pub present : Option String → Option String
present none = none
present (some s) = if str_eq s "" then none else some s

-- `s.replace('Bearer ', '')`: the first occurrence.
abbrev pub remove_bearer : String → String
remove_bearer String.[] = ""
remove_bearer (String.◌∷◌ c s) =
    let rest = remove_bearer s in
    if starts_with (String.◌∷◌ c s) "Bearer " then drop 7 (String.◌∷◌ c s) else String.◌∷◌ c rest

abbrev pub token_of : Option String → Option String
token_of none = none
token_of (some header) = present (some (remove_bearer header))

abbrev pub with_demo_user : Option String → Request → Passage
with_demo_user none req = answered 401 "UNAUTHORIZED"
with_demo_user (some token) req =
    passed (record req { user = some (record { id = "user-123"; role = "customer" }) })

-- `authenticationMiddleware`.
unfoldable pub authenticate : Request → Passage
authenticate req = with_demo_user (token_of req.authorization) req

abbrev pub role_among : Option User → List String → Bool
role_among none roles = false
role_among (some u) roles = not (str_eq u.role "") && includes u.role roles

-- `authorizationMiddleware`.
unfoldable pub authorize : List String → Request → Passage
authorize roles req = if role_among req.user roles then passed req else answered 403 "FORBIDDEN"

-- `validateContentType`; `type_in` is `contentType.includes(type)`.
abbrev pub any_type : (String → String → Bool) → String → List String → Bool
any_type type_in header [] = false
any_type type_in header (t ∷ ts) = type_in header t || any_type type_in header ts

abbrev pub has_type : (String → String → Bool) → Option String → List String → Bool
has_type type_in none allowed = false
has_type type_in (some header) allowed = any_type type_in header allowed

unfoldable pub validate_content_type : (String → String → Bool) → List String → Request → Passage
validate_content_type type_in allowed req =
    if has_type type_in (present req.content_type) allowed
    then passed req
    else answered 415 "UNSUPPORTED_MEDIA_TYPE"

abbrev pub or_text : Option String → String → String
or_text none fallback = fallback
or_text (some s) fallback = s

-- A comparison with NaN is false.
abbrev pub is_above : Option ℤ → ℕ → Bool
is_above none limit = false
is_above (some n) limit = ltb_ℤ (pos limit) n

-- `requestSizeLimitMiddleware`.
unfoldable pub limit_size : (String → Option ℤ) → ℕ → Request → Passage
limit_size parse_int max_size req =
    if is_above (parse_int (or_text (present req.content_length) "0")) max_size
    then answered 413 "PAYLOAD_TOO_LARGE"
    else passed req

-- `correlationMiddleware`, with the identifier that `uuid()` gives; the answer's header
-- `X-Correlation-ID` gets the same identifier.
unfoldable pub correlate : (uuid : String) → Request → Request × String
correlate uuid req =
    let id = or_text (present req.correlation_header) uuid in
    (record req { correlation_id = some id }, id)

-- `securityHeadersMiddleware`.
abbrev pub security_headers : List (String × String)
security_headers =
    ("Content-Security-Policy", "default-src 'self'")
    ∷ ("X-Content-Type-Options", "nosniff")
    ∷ ("X-Frame-Options", "DENY")
    ∷ ("X-XSS-Protection", "1; mode=block")
    ∷ ("Referrer-Policy", "strict-origin-when-cross-origin")
    ∷ ("Permissions-Policy", "geolocation=(), microphone=(), camera=()")
    ∷ []

-- `AuditLogEntry`, as far as it does not depend on the connection.
pub record AuditLogEntry : Type 0 where
  pub user_id : Option String
  pub correlation_id : Option String
  pub success : Bool
  pub error_status : Option ℕ

abbrev pub user_id_of : Option User → Option String
user_id_of none = none
user_id_of (some u) = some (u.id)

-- The entry that `auditLogMiddleware` prints when the answer ends.
unfoldable pub audit : Request → (status : ℕ) → AuditLogEntry
audit req status = record {
  user_id = user_id_of req.user;
  correlation_id = req.correlation_id;
  success = ltb status 400;
  error_status = if ltb status 400 then none else some status;
}

-- What reaches the error handler: an error of the services, or one of the parser `zod`.
pub data Failure : Type 0 where
  service : Error → Failure
  zod : Failure

abbrev pub or_500 : Option ℕ → ℕ
or_500 none = 500
or_500 (some status) = status

-- The status that `createErrorHandler` answers.
unfoldable pub error_status : Failure → ℕ
error_status (service e) = or_500 (status_code e)
error_status zod = 400
