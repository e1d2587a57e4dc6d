-- ===== src/Gateway/Sessions.antt =====
-- A login at the gateway and what its token is good for (packages/api-gateway/src/auth/auth.controller.ts
-- with the guards and the proxy controllers).
use banking_platform.Base.{ℕ, ◌+◌, String, some}
use banking_platform.Base.Texts.{bearer}
use banking_platform.Gateway.Http.{JwtPayload, Request, Jwt}

-- The request bears the token.
abbrev pub with_token : String → Request → Request
with_token token req = record req {
  headers = record (req.headers) { authorization = some (bearer token) };
}

-- The payload as it stands in a token that was signed at a time.
abbrev pub stamped : Jwt → ℕ → JwtPayload → JwtPayload
stamped jwt now p = record p { iat = some now; exp = some (now + jwt.expires_in) }
