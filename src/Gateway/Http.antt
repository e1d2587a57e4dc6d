-- ===== src/Gateway/Http.antt =====
-- What the handlers of packages/api-gateway see of a request and what they answer. Express, NestJS
-- and the JSON parser are not part of this code. A header or a field that is `undefined` is `none`.
use text.Mathlib.Text.{◌==◌ as str_eq}
use banking_platform.Base.{ℕ, ◌+◌, ◌≡◌, ltb, String, Option, none, some, if◌then◌else◌}

-- `JwtPayload`; times are seconds.
pub record JwtPayload : Type 0 where
  pub sub : String
  pub email : String
  pub role : String
  pub client_id : Option String
  pub iat : Option ℕ
  pub exp : Option ℕ

-- The headers that the gateway reads or writes.
pub record Headers : Type 0 where
  pub authorization : Option String
  pub content_type : Option String
  pub correlation_id : Option String
  pub user_id : Option String
  pub user_role : Option String
  pub user_email : Option String

-- `body` is the JSON text of a body, `none` if it is falsy.
pub record Request : Type 0 where
  pub method : String
  pub path : String
  pub original_url : String
  pub headers : Headers
  pub user : Option JwtPayload
  pub body : Option String

-- NestJS's exceptions, and any other error.
pub data Exception : Type 0 where
  bad_request unauthorized forbidden : (message : String) → Exception
  other : (message : String) → Exception

pub data Outcome (A : Type 0) : Type 0 where
  done : A → Outcome A
  thrown : Exception → Outcome A

abbrev pub and_then : {A B : Type 0} → Outcome A → (A → Outcome B) → Outcome B
and_then (done a) f = f a
and_then (thrown e) f = thrown e

-- `{ id, email, role }`.
pub record User : Type 0 where
  pub id : String
  pub email : String
  pub role : String

-- The bodies of the answers; instants are milliseconds.
pub data Body : Type 0 where
  failure : (code message : String) → Body
  -- what the upstream service answered, `{}` if that was no JSON
  relayed : (json : Option String) → Body
  signed_in : (token : String) (expires_at : ℕ) → User → Body
  refreshed : (token : String) (expires_at : ℕ) → Body
  profile : User → (client_id : Option String) (token_expires_at : ℕ) → Body

-- What a handler answers: a body with the status that the framework chooses, or with its own.
pub data Reply : Type 0 where
  success : Body → Reply
  with_status : ℕ → Body → Reply

-- `value || fallback` of texts.
abbrev pub or_default : Option String → String → String
or_default none fallback = fallback
or_default (some s) fallback = if str_eq s "" then fallback else s

-- `a || b` of texts that may be missing.
abbrev pub or_else : Option String → Option String → Option String
or_else none b = b
or_else (some s) b = if str_eq s "" then b else some s

-- What packages/api-gateway uses of the library jsonwebtoken, with its documented behaviour: a token
-- that it signed, of a payload without times of its own, is verified until it expires. Times are
-- seconds.
pub data Verified : Type 0 where
  verified : JwtPayload → Verified
  expired : Verified
  invalid : Verified

pub record Jwt : Type 0 where
  pub expires_in : ℕ
  pub sign : (now : ℕ) → JwtPayload → String
  pub verify : (now : ℕ) → String → Verified
  pub decode : String → Option JwtPayload
  pub verify-sign :
      (now later : ℕ) (p : JwtPayload)
      → p.iat ≡ none
      → p.exp ≡ none
      → verify later (sign now p) ≡ (
          if ltb later (now + expires_in)
          then verified (record p { iat = some now; exp = some (now + expires_in) })
          else expired)
  pub decode-sign :
      (now : ℕ) (p : JwtPayload)
      → p.iat ≡ none
      → p.exp ≡ none
      → decode (sign now p) ≡ some (record p { iat = some now; exp = some (now + expires_in) })
