-- ===== src/Tests/PlainTokens.antt =====
-- Tokens that hold their payload in the clear, with the behaviour that Gateway.Http names.
use Prim.Native.Char.{Char, code}
use banking_platform.Base.{
  ℕ, zero, suc, ◌+◌, ltb, ◌==◌, ◌≡◌, refl, ap, ◌∙◌, String, Bool, true, false, Option, none, some,
  if◌then◌else◌,
}
use banking_platform.Gateway.Http.{JwtPayload, Verified, verified, expired, Jwt}

-- A mark before each character, and another one at the end.
abbrev pub write : String → String → String
write String.[] rest = String.◌∷◌ "." rest
write (String.◌∷◌ c s) rest = String.◌∷◌ "+" (String.◌∷◌ c (write s rest))

abbrev pub read_if : Bool → Char → String × String → String → String × String
read_if true c later rest = (String.◌∷◌ c later.0, later.1)
read_if false c later rest = ("", rest)

abbrev pub read : String → String × String
read String.[] = ("", "")
read (String.◌∷◌ mark String.[]) = ("", "")
read (String.◌∷◌ mark (String.◌∷◌ c rest)) =
    read_if (code mark == code "+") c (read rest) (String.◌∷◌ c rest)

pub read-write : (s rest : String) → read (write s rest) ≡ (s, rest)
read-write String.[] String.[] = refl
read-write String.[] (String.◌∷◌ c rest) = refl
read-write (String.◌∷◌ c s) rest = ap (λ p. (String.◌∷◌ c p.0, p.1)) (read-write s rest)

abbrev pub write_number : ℕ → String → String
write_number zero rest = String.◌∷◌ "." rest
write_number (suc n) rest = String.◌∷◌ "+" (write_number n rest)

abbrev pub count_if : Bool → ℕ × String → String → ℕ × String
count_if true later rest = (suc later.0, later.1)
count_if false later rest = (0, rest)

abbrev pub read_number : String → ℕ × String
read_number String.[] = (0, "")
read_number (String.◌∷◌ mark rest) = count_if (code mark == code "+") (read_number rest) rest

pub read_number-write_number :
    (n : ℕ) (rest : String) → read_number (write_number n rest) ≡ (n, rest)
read_number-write_number zero rest = refl
read_number-write_number (suc n) rest = ap (λ p. (suc p.0, p.1)) (read_number-write_number n rest)

-- A client identifier; none is written as no text, one with a text after a mark.
abbrev pub write_option : Option String → String → String
write_option none rest = write_number 0 rest
write_option (some s) rest = write_number 1 (write s rest)

abbrev pub option_of : ℕ → String × String → Option String
option_of zero p = none
option_of (suc n) p = some (p.0)

abbrev pub read_option : String → Option String
read_option t = option_of (read_number t).0 (read (read_number t).1)

pub read_option-write_option : (o : Option String) → read_option (write_option o "") ≡ o
read_option-write_option none = refl
read_option-write_option (some s) = ap (λ p. some (p.0)) (read-write s "")

abbrev pub sign : ℕ → JwtPayload → String
sign now p =
    write_number now (write p.sub (write p.email (write p.role (write_option p.client_id ""))))

abbrev pub valid_until : ℕ
valid_until = 3600

-- The payload that stands in a token, a part for each text that is read.
abbrev pub with_client : ℕ → (sub email role : String) → Option String → ℕ × JwtPayload
with_client now sub email role client_id = (
  now,
  record {
    sub = sub;
    email = email;
    role = role;
    client_id = client_id;
    iat = some now;
    exp = some (now + valid_until);
  },
)

abbrev pub with_role : ℕ → (sub email : String) → String × String → ℕ × JwtPayload
with_role now sub email p = with_client now sub email p.0 (read_option p.1)

abbrev pub with_email : ℕ → String → String × String → ℕ × JwtPayload
with_email now sub p = with_role now sub p.0 (read p.1)

abbrev pub with_sub : ℕ → String × String → ℕ × JwtPayload
with_sub now p = with_email now p.0 (read p.1)

abbrev pub opened : ℕ × String → ℕ × JwtPayload
opened p = with_sub p.0 (read p.1)

abbrev pub open_token : String → ℕ × JwtPayload
open_token t = opened (read_number t)

pub open_token-sign :
    (now : ℕ) (p : JwtPayload)
    → open_token (sign now p) ≡ with_client now p.sub p.email p.role p.client_id
open_token-sign now p =
    let roles = write p.role (write_option p.client_id "") in
    ap opened (read_number-write_number now (write p.sub (write p.email roles)))
    ∙ ap (with_sub now) (read-write p.sub (write p.email roles))
    ∙ ap (with_email now p.sub) (read-write p.email roles)
    ∙ ap (with_role now p.sub p.email) (read-write p.role (write_option p.client_id ""))
    ∙ ap (with_client now p.sub p.email p.role) (read_option-write_option p.client_id)

abbrev pub verify_at : ℕ → ℕ × JwtPayload → Verified
verify_at later t = if ltb later (t.0 + valid_until) then verified (t.1) else expired

abbrev pub plain_tokens : Jwt
plain_tokens = record {
  expires_in = valid_until;
  sign = sign;
  verify = λ later t. verify_at later (open_token t);
  decode = λ t. some ((open_token t).1);
  verify-sign = λ now later p _ _. ap (verify_at later) (open_token-sign now p);
  decode-sign = λ now p _ _. ap (λ t. some (t.1)) (open_token-sign now p);
}
