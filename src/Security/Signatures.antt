-- ===== src/Security/Signatures.antt =====
-- `requestSignatureMiddleware` (packages/shared/src/security/owasp-middleware.ts): which requests pass.
-- SHA-256 is a parameter.
use Prim.Native.String.{◌++◌ as ◌<>◌}
use mathlib.Core.Option.{some-injective}
use banking_platform.Base.{
  ℕ, ◌+◌, ◌*◌, ◌≡◌, ◌≢◌, refl, ◌↔◌, sym, ◌∙◌, subst, true, arith, String, false, Option, none, some,
  Bool-cases, inl, inr, if◌then◌else◌,
}
use banking_platform.Base.Int.{ℤ, pos, negsuc, pos_part, neg_part, ◌+ℤ◌, ◌-ℤ◌, ◌≤ℤ◌, ltb_ℤ}
use text.Mathlib.Text.{◌==◌ as str_eq}
use text.Mathlib.TextEquality.{eq_iff}
use banking_platform.Security.Middleware.{Request, Passage, passed, answered, present, is_above}

-- `Math.abs`.
abbrev pub abs : ℤ → ℤ
abs n = pos (pos_part n + neg_part n)

abbrev pub time_diff : ℕ → Option ℤ → Option ℤ
time_diff now none = none
time_diff now (some t) = some (abs (pos now -ℤ t))

-- A text that is there and not empty.
present-some : (o : Option String) (s : String) → o ≡ some s → s ≢ "" → present o ≡ some s
present-some o s h k = elim (Bool-cases (str_eq s "")) [
  | inl empty ↦ absurd (k ((eq_iff s "").0 empty))
  | inr full ↦ rw (h) (rw (full) refl)
]

some-present : (o : Option String) (s : String) → present o ≡ some s → (o ≡ some s) × (s ≢ "")
some-present none s h = cc
some-present (some t) s h = elim (Bool-cases (str_eq t "")) [
  | inl empty ↦ absurd (let e = rw (empty) at h in cc e)
  | inr full ↦
      let e : some t ≡ some s = rw (full) at h in
      (
        e,
        λ z.
            let clash : true ≡ false = sym ((eq_iff t "").1 (some-injective t s e ∙ z)) ∙ full in
            cc,
      )
]

close_lem :
    (now : ℕ) (t : ℤ)
    → t ≤ℤ pos (now + 300000)
    → pos now ≤ℤ (t +ℤ pos 300000)
    → ltb_ℤ (pos 300000) (abs (pos now -ℤ t)) ≡ false
unfolding ◌-ℤ◌ ◌+ℤ◌
close_lem now (pos n) h k = ground arith
close_lem now (negsuc n) h k = ground arith

apart_lem :
    (now : ℕ) (t : ℤ)
    → ltb_ℤ (pos 300000) (abs (pos now -ℤ t)) ≡ false
    → (t ≤ℤ pos (now + 300000)) × (pos now ≤ℤ (t +ℤ pos 300000))
unfolding ◌-ℤ◌ ◌+ℤ◌
apart_lem now (pos n) h = (ground arith, ground arith)
apart_lem now (negsuc n) h = (ground arith, ground arith)

-- At most five minutes apart, by the bounds on either side.
fresh_lem :
    (now : ℕ) (o : Option ℤ)
    → ((t : ℤ) → o ≡ some t → (t ≤ℤ pos (now + 300000)) × (pos now ≤ℤ (t +ℤ pos 300000)))
    → is_above (time_diff now o) 300000 ≡ false
fresh_lem now none h = refl
fresh_lem now (some t) h = close_lem now t (h t refl).0 (h t refl).1

near_lem :
    (now : ℕ) (o : Option ℤ)
    → is_above (time_diff now o) 300000 ≡ false
    → (t : ℤ) → o ≡ some t
    → (t ≤ℤ pos (now + 300000)) × (pos now ≤ℤ (t +ℤ pos 300000))
near_lem now none h t e = cc
near_lem now (some u) h t e =
    let near = apart_lem now u h in
    subst (λ v. (v ≤ℤ pos (now + 300000)) × (pos now ≤ℤ (v +ℤ pos 300000))) (some-injective u t e)
      near

module _ (parse_int : String → Option ℤ) (sha256 : String → String) (secret : String) where
  abbrev pub expected_signature : String → String → String
  expected_signature body timestamp = sha256 (body <> timestamp <> secret)

  abbrev pub check_digest : String → String → Request → Passage
  check_digest signature timestamp req =
      if str_eq signature (expected_signature req.body timestamp)
      then passed req
      else answered 400 "INVALID_SIGNATURE"

  abbrev pub check_age : ℕ → String → String → Request → Passage
  check_age now signature timestamp req =
      if is_above (time_diff now (parse_int timestamp)) (5 * 60 * 1000)
      then answered 400 "EXPIRED_SIGNATURE"
      else check_digest signature timestamp req

  abbrev pub check_present : ℕ → Option String → Option String → Request → Passage
  check_present now none timestamp req = answered 400 "MISSING_SIGNATURE"
  check_present now (some signature) none req = answered 400 "MISSING_SIGNATURE"
  check_present now (some signature) (some timestamp) req = check_age now signature timestamp req

  -- `requestSignatureMiddleware` at a time in milliseconds.
  unfoldable pub check_signature : ℕ → Request → Passage
  check_signature now req = check_present now (present req.signature) (present req.timestamp) req

  -- What a request that passes has: a signature and a time that are not empty, a time at most five
  -- minutes before or after now if it is a number, and the digest of body, time and secret.
  pub record IsSigned (now : ℕ) (req : Request) : Type 0 where
    pub signature : String
    pub timestamp : String
    pub has_signature : (req.signature ≡ some signature) × (signature ≢ "")
    pub has_timestamp : (req.timestamp ≡ some timestamp) × (timestamp ≢ "")
    pub fresh :
        (t : ℤ)
        → parse_int timestamp ≡ some t
        → (t ≤ℤ pos (now + 300000)) × (pos now ≤ℤ (t +ℤ pos 300000))
    pub matching : signature ≡ sha256 (req.body <> timestamp <> secret)

  -- A signed request passes.
  check_signature-passes :
      (now : ℕ) (req : Request) → IsSigned now req → check_signature now req ≡ passed req
  unfolding check_signature
  check_signature-passes now req h =
      rw
        (
          present-some req.signature h.signature h.has_signature.0 h.has_signature.1,
          present-some req.timestamp h.timestamp h.has_timestamp.0 h.has_timestamp.1,
          fresh_lem now (parse_int h.timestamp) h.fresh,
          (eq_iff h.signature (expected_signature req.body h.timestamp)).1 h.matching,
        )
        refl

  check_digest-match :
      (req : Request) (signature timestamp : String)
      → check_digest signature timestamp req ≡ passed req
      → signature ≡ expected_signature req.body timestamp
  check_digest-match req signature timestamp h =
      elim (Bool-cases (str_eq signature (expected_signature req.body timestamp))) [
        | inl hit ↦ (eq_iff signature (expected_signature req.body timestamp)).0 hit
        | inr miss ↦ absurd (let e = rw (miss) at h in cc e)
      ]

  check_age-IsSigned :
      (now : ℕ) (req : Request) (signature timestamp : String)
      → present req.signature ≡ some signature
      → present req.timestamp ≡ some timestamp
      → check_age now signature timestamp req ≡ passed req
      → IsSigned now req
  check_age-IsSigned now req signature timestamp signed timed h =
      elim (Bool-cases (is_above (time_diff now (parse_int timestamp)) 300000)) [
        | inl old ↦ absurd (let e = rw (old) at h in cc e)
        | inr fresh ↦ record {
          signature = signature;
          timestamp = timestamp;
          has_signature = some-present req.signature signature signed;
          has_timestamp = some-present req.timestamp timestamp timed;
          fresh = near_lem now (parse_int timestamp) fresh;
          matching = check_digest-match req signature timestamp (rw (fresh) at h);
        }
      ]

  check_present-IsSigned :
      (now : ℕ) (req : Request) (signature timestamp : Option String)
      → present req.signature ≡ signature
      → present req.timestamp ≡ timestamp
      → check_present now signature timestamp req ≡ passed req
      → IsSigned now req
  check_present-IsSigned now req none timestamp signed timed h = absurd (cc h)
  check_present-IsSigned now req (some signature) none signed timed h = absurd (cc h)
  check_present-IsSigned now req (some signature) (some timestamp) signed timed h =
      check_age-IsSigned now req signature timestamp signed timed h

-- A request passes exactly if it has a signature and a time that are not empty, the time is no number
-- or at most five minutes away, and the signature is the digest of body, time and secret.
pub check_signature-IsSigned :
    (parse_int : String → Option ℤ) (sha256 : String → String) (secret : String) (now : ℕ)
    (req : Request)
    → (check_signature parse_int sha256 secret now req ≡ passed req)
      ↔ IsSigned parse_int sha256 secret now req
unfolding check_signature
check_signature-IsSigned parse_int sha256 secret now req = (
  check_present-IsSigned parse_int sha256 secret now req (present req.signature)
      (present req.timestamp) refl refl,
  check_signature-passes parse_int sha256 secret now req,
)
