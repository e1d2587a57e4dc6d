-- ===== src/Gateway/Access.antt =====
-- Who reaches the services through the gateway (packages/api-gateway/src): the guards, the proxy
-- controllers and the login together.
use text.Mathlib.Text.{◌==◌ as str_eq}
use text.Mathlib.TextEquality.{eq_iff}
use banking_platform.Base.{
  ℕ, ◌≡◌, refl, sym, ap, ◌∙◌, subst⁻¹, String, Bool, true, false, ◌||◌, Option, none, some, List,
  [], ◌∷◌, All, Bool-cases, inl, inr, if◌then◌else◌,
}
use banking_platform.Base.Texts.{starts_with, drop, includes}
use banking_platform.Gateway.Http.{
  JwtPayload, Request, thrown, forbidden, unauthorized, and_then, or_else, or_default, Verified,
  verified, expired, invalid, Jwt,
}
use banking_platform.Gateway.Guards.{
  Route, public_paths, begins_public, identified, admit, check_header, check_required, jwt_guard,
  roles_guard, guard, filter_exception,
}
use banking_platform.Gateway.Proxy.{
  Outgoing, Fetched, Controller, clients, accounts, transactions, ai, Urls, Handled, is_allowed,
  allowed_roles, read_roles, write_roles, check_role, outgoing, reply_of, target_base,
  proxy_request, if_done, proxy, handle,
}

-- The route needs a token.
abbrev pub is_open_route : Route → Request → Bool
is_open_route route req = begins_public req.path public_paths || route.is_public

-- The same request with other identity headers.
abbrev pub forge : (id role email : Option String) → Request → Request
forge id role email req = record req {
  headers = record (req.headers) { user_id = id; user_role = role; user_email = email };
}

-- What a request that is sent upstream rests on.
pub record IsAuthorized (jwt : Jwt) (now : ℕ) (controller : Controller) (req : Request)
    (out : Outgoing) : Type 0 where
  pub header : String
  pub holder : JwtPayload
  pub presented : req.headers.authorization ≡ some header
  pub bearer : starts_with header "Bearer " ≡ true
  pub valid : jwt.verify now (drop 7 header) ≡ verified holder
  pub permitted : includes holder.role (allowed_roles controller req.method) ≡ true
  pub role : out.user_role ≡ holder.role

-- No list of roles has the empty one.
either_lem : (b : Bool) → includes "" (if b then read_roles else write_roles) ≡ false
either_lem true = refl
either_lem false = refl

empty_role_lem :
    (controller : Controller) (method : String)
    → includes "" (allowed_roles controller method) ≡ false
empty_role_lem clients method = either_lem (str_eq method "GET")
empty_role_lem accounts method = either_lem (str_eq method "GET")
empty_role_lem transactions method = either_lem (str_eq method "GET")
empty_role_lem ai method = refl

is_allowed_lem :
    (role : String) (controller : Controller) (method : String)
    → is_allowed (or_else (some role) (some role)) (allowed_roles controller method)
      ≡ includes role (allowed_roles controller method)
is_allowed_lem role controller method = elim (Bool-cases (str_eq role "")) [
  | inl void ↦
      rw (void, void)
        (sym (empty_role_lem controller method)
          ∙ ap (λ r. includes r (allowed_roles controller method)) (sym ((eq_iff role "").0 void)))
  | inr full ↦ rw (full, full) refl
]

or_default_self : (role : String) → or_default (some role) "" ≡ role
or_default_self role = elim (Bool-cases (str_eq role "")) [
  | inl void ↦ rw (void) (sym ((eq_iff role "").0 void))
  | inr full ↦ rw (full) refl
]

module _ (jwt : Jwt) (fetch : Outgoing → Fetched) (urls : Urls) (controller : Controller) where
  -- The answer to the holder of a token, by whether its role is permitted.
  abbrev pub answer_to : JwtPayload → Request → Bool → Handled
  answer_to p req permitted =
      if permitted
      then (
        reply_of (fetch (outgoing (target_base urls controller) (identified p req))),
        outgoing (target_base urls controller) (identified p req) ∷ [],
      )
      else (filter_exception (forbidden "Role not allowed"), [])

  pub proxy-identified :
      (p : JwtPayload) (req : Request)
      → proxy jwt fetch urls controller (identified p req)
        ≡ answer_to p req (includes p.role (allowed_roles controller req.method))
  unfolding proxy check_role proxy_request
  proxy-identified p req =
      elim (Bool-cases (includes p.role (allowed_roles controller req.method))) [
        | inl hit ↦ rw (is_allowed_lem p.role controller req.method, hit) refl
        | inr miss ↦ rw (is_allowed_lem p.role controller req.method, miss) refl
      ]

  admit-forge :
      (id role email : Option String) (v : Verified) (req : Request)
      → admit v (forge id role email req) ≡ admit v req
  admit-forge id role email (verified p) req = refl
  admit-forge id role email expired req = refl
  admit-forge id role email invalid req = refl

  check_header-forge :
      (now : ℕ) (id role email header : Option String) (req : Request)
      → check_header jwt now header (forge id role email req) ≡ check_header jwt now header req
  check_header-forge now id role email none req = refl
  check_header-forge now id role email (some header) req =
      ap
        (λ a.
          if starts_with header "Bearer " then a else thrown (unauthorized "Bearer token required"))
        (admit-forge id role email (jwt.verify now (drop 7 header)) req)

  module _ (now : ℕ) (req : Request) where
    abbrev Safe : Handled → Type 0
    Safe h = All (IsAuthorized jwt now controller req) h.1

    proxy-Safe :
        (header : String) (p : JwtPayload)
        → req.headers.authorization ≡ some header
        → starts_with header "Bearer " ≡ true
        → jwt.verify now (drop 7 header) ≡ verified p
        → Safe (proxy jwt fetch urls controller (identified p req))
    proxy-Safe header p given begins valid =
        elim (Bool-cases (includes p.role (allowed_roles controller req.method))) [
          | inl hit ↦ subst⁻¹ Safe (proxy-identified p req ∙ ap (answer_to p req) hit) (
            record {
              header = header;
              holder = p;
              presented = given;
              bearer = begins;
              valid = valid;
              permitted = hit;
              role = or_default_self p.role;
            },
            tt,
          )
          | inr miss ↦ subst⁻¹ Safe (proxy-identified p req ∙ ap (answer_to p req) miss) tt
        ]

    required-Safe :
        (rs : List String) (p : JwtPayload)
        → Safe (proxy jwt fetch urls controller (identified p req))
        → Safe (if_done (check_required rs (identified p req)) (proxy jwt fetch urls controller))
    required-Safe [] p h = h
    required-Safe (r ∷ rs) p h = elim (Bool-cases (includes p.role (r ∷ rs))) [
      | inl hit ↦ rw (hit) h
      | inr miss ↦ rw (miss) tt
    ]

    roles_guard-Safe :
        (route : Route) (p : JwtPayload)
        → Safe (proxy jwt fetch urls controller (identified p req))
        → Safe (if_done (roles_guard route (identified p req)) (proxy jwt fetch urls controller))
    unfolding roles_guard
    roles_guard-Safe route p h = elim (Bool-cases (begins_public req.path public_paths)) [
      | inl hit ↦ rw (hit) h
      | inr miss ↦ rw (miss) (required-Safe route.required_roles p h)
    ]

    admit-Safe :
        (route : Route) (header : String) (v : Verified)
        → req.headers.authorization ≡ some header
        → starts_with header "Bearer " ≡ true
        → jwt.verify now (drop 7 header) ≡ v
        → Safe
            (if_done (and_then (admit v req) (roles_guard route)) (proxy jwt fetch urls controller))
    admit-Safe route header (verified p) given begins valid =
        roles_guard-Safe route p (proxy-Safe header p given begins valid)
    admit-Safe route header expired given begins valid = tt
    admit-Safe route header invalid given begins valid = tt

    check_header-Safe :
        (route : Route) (header : Option String)
        → req.headers.authorization ≡ header
        → Safe (
            if_done
              (and_then (check_header jwt now header req) (roles_guard route))
              (proxy jwt fetch urls controller))
    check_header-Safe route none given = tt
    check_header-Safe route (some header) given = elim (Bool-cases (starts_with header "Bearer ")) [
      | inl begins ↦
          rw (begins) (admit-Safe route header (jwt.verify now (drop 7 header)) given begins refl)
      | inr other ↦ rw (other) tt
    ]

  -- A route that needs a token.
  pub handle-private :
      (now : ℕ) (route : Route) (req : Request)
      → is_open_route route req ≡ false
      → handle jwt fetch urls now route controller req
        ≡ if_done
            (and_then (check_header jwt now req.headers.authorization req) (roles_guard route))
            (proxy jwt fetch urls controller)
  unfolding handle guard jwt_guard
  handle-private now route req private = rw (private) refl

-- On a route that needs a token, whatever the client sends: a request reaches a service only if the
-- `authorization` header bears a token that is verified at that time, with a role that the
-- controller permits for the method, and it is sent with that role as `x-user-role`.
pub handle-IsAuthorized :
    (jwt : Jwt) (fetch : Outgoing → Fetched) (urls : Urls) (now : ℕ) (route : Route)
    (controller : Controller) (req : Request)
    → is_open_route route req ≡ false
    → All (IsAuthorized jwt now controller req) (handle jwt fetch urls now route controller req).1
handle-IsAuthorized jwt fetch urls now route controller req private =
    subst⁻¹ (λ h. All (IsAuthorized jwt now controller req) h.1)
      (handle-private jwt fetch urls controller now route req private)
      (check_header-Safe jwt fetch urls controller now req route req.headers.authorization refl)

-- On a route that needs a token, the identity headers that the client sends change neither the answer
-- nor what is sent to the services.
pub handle-forge :
    (jwt : Jwt) (fetch : Outgoing → Fetched) (urls : Urls) (now : ℕ) (route : Route)
    (controller : Controller) (id role email : Option String) (req : Request)
    → is_open_route route req ≡ false
    → handle jwt fetch urls now route controller (forge id role email req)
      ≡ handle jwt fetch urls now route controller req
handle-forge jwt fetch urls now route controller id role email req private =
    handle-private jwt fetch urls controller now route (forge id role email req) private
    ∙ ap (λ o. if_done (and_then o (roles_guard route)) (proxy jwt fetch urls controller))
        (check_header-forge jwt fetch urls controller now id role email req.headers.authorization
          req)
    ∙ sym (handle-private jwt fetch urls controller now route req private)
