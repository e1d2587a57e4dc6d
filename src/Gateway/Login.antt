-- ===== src/Gateway/Login.antt =====
-- `AuthController` (packages/api-gateway/src/auth/auth.controller.ts). `Date.now()` is in milliseconds;
-- how it is printed is a parameter.
use Prim.Native.String.{◌++◌ as ◌<>◌}
use banking_platform.Base.{ℕ, ◌*◌, String, ◌||◌, Option, none, some, List, [], ◌∷◌, if◌then◌else◌}
use text.Mathlib.Text.{◌==◌ as str_eq}
use banking_platform.Gateway.Http.{
  JwtPayload, Request, bad_request, unauthorized, other, Outcome, done, thrown, Body, signed_in,
  refreshed, profile, Reply, success, or_default, Jwt,
}

pub record LoginDto : Type 0 where
  pub email : String
  pub password : String
  pub role : Option String

pub record DemoUser : Type 0 where
  pub email : String
  pub password : String
  pub role : String

abbrev pub demo_users : List DemoUser
demo_users =
    record { email = "admin@bank.com"; password = "admin123"; role = "admin" }
    ∷ record { email = "customer@bank.com"; password = "customer123"; role = "customer" }
    ∷ record { email = "readonly@bank.com"; password = "readonly123"; role = "readonly" }
    ∷ []

abbrev pub lookup : String → List DemoUser → Option DemoUser
lookup email [] = none
lookup email (u ∷ us) = if str_eq u.email email then some u else lookup email us

-- The role of the new token, or the refusal.
abbrev pub role_for : Option DemoUser → LoginDto → Outcome String
role_for none dto =
    if str_eq dto.password "demo"
    then done (or_default dto.role "customer")
    else thrown (unauthorized "Invalid email or password")
role_for (some u) dto =
    if str_eq u.password dto.password
    then done (or_default (some (u.role)) (or_default dto.role "customer"))
    else thrown (unauthorized "Invalid email or password")

abbrev pub granted_role : LoginDto → Outcome String
granted_role dto =
    if str_eq dto.email "" || str_eq dto.password ""
    then thrown (bad_request "email and password are required")
    else role_for (lookup dto.email demo_users) dto

-- `new Date(exp! * 1000).toISOString()`, which throws without a time.
abbrev pub instant : Option JwtPayload → (ℕ → Body) → Outcome Reply
instant none f = thrown (other "Cannot read properties of null (reading 'exp')")
instant (some p) f = elim (p.exp) [
  | none ↦ thrown (other "Invalid time value")
  | some t ↦ done (success (f (t * 1000)))
]

module _ (jwt : Jwt) (print : ℕ → String) where
  abbrev pub payload : ℕ → LoginDto → String → JwtPayload
  payload now_ms dto role = record {
    sub = "user-" <> print now_ms;
    email = dto.email;
    role = role;
    client_id = none;
    iat = none;
    exp = none;
  }

  -- The answer to a login: the token that is signed, with the time at which it expires.
  abbrev pub session_for : (now now_ms : ℕ) → LoginDto → Outcome String → Outcome Reply
  session_for now now_ms dto (thrown e) = thrown e
  session_for now now_ms dto (done role) =
      let p = payload now_ms dto role in
      let token = jwt.sign now p in
      instant (jwt.decode token)
        (λ t. signed_in token t (record { id = p.sub; email = dto.email; role = role }))

  unfoldable pub login : (now now_ms : ℕ) → LoginDto → Outcome Reply
  login now now_ms dto = session_for now now_ms dto (granted_role dto)

  -- The new token of a user.
  abbrev pub refresh_user : (now : ℕ) → Option JwtPayload → Outcome Reply
  refresh_user now none = thrown (other "Cannot read properties of undefined (reading 'sub')")
  refresh_user now (some p) =
      let token = jwt.sign now (record p { iat = none; exp = none }) in
      instant (jwt.decode token) (refreshed token)

  unfoldable pub refresh : (now : ℕ) → Request → Outcome Reply
  refresh now req = refresh_user now req.user

  abbrev pub profile_of : Option JwtPayload → Outcome Reply
  profile_of none = thrown (other "Cannot read properties of undefined (reading 'sub')")
  profile_of (some p) =
      instant (some p) (profile (record { id = p.sub; email = p.email; role = p.role }) p.client_id)

  unfoldable pub me : Request → Outcome Reply
  me req = profile_of req.user
