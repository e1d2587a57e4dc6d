-- ===== src/Cache/Window.antt =====
-- The rate limiter of packages/shared/src/cache/cache-service.ts against a reference that keeps the
-- times of all requests.
use banking_platform.Base.{
  ℕ, ◌+◌, ◌*◌, ◌≤◌, ◌<◌, ltb, ◌≡◌, refl, sym, ap, ◌∙◌, Bool, false, List, [], ◌∷◌, ◌++◌, select,
  select-append, length, map, All, All-append, if◌then◌else◌, arith, Bool-cases, inl, inr,
}
use banking_platform.Shared.Errors.{Result, ok}
use banking_platform.Shared.Database.{Session, on_pool}
use banking_platform.Shared.Database.Progress.{calm}
use banking_platform.Cache.Redis.{Redis, Key, rate_limit, has_score, add_score}
use banking_platform.Cache.Service.{Verdict, key, verdict, check_rate_limit}

-- The requests that are less than a window ago.
abbrev pub in_window : ℕ → ℕ → List ℕ → List ℕ
in_window now window times = select (λ u. ltb now (u + window)) times

-- The verdicts on requests at the given times by the whole history of requests.
abbrev pub reference : (max_requests window : ℕ) → List ℕ → List ℕ → List Verdict
reference max_requests window history [] = []
reference max_requests window history (now ∷ times) =
    verdict max_requests (length (in_window now window history))
    ∷ reference max_requests window (history ++ (now ∷ [])) times

-- Times that grow, from after `last` on.
abbrev pub GrowsFrom : ℕ → List ℕ → Type 0
GrowsFrom last [] = Unit {0}
GrowsFrom last (t ∷ times) = (last < t) × GrowsFrom t times

-- Selecting for a later time from what an earlier time selects.
in_window-in_window :
    (now later window : ℕ) (times : List ℕ)
    → now ≤ later
    → in_window later window (in_window now window times) ≡ in_window later window times
in_window-in_window now later window [] le = refl
in_window-in_window now later window (t ∷ times) le =
    ground (arith, in_window-in_window now later window times le)

in_window-late :
    (now last window : ℕ) (times : List ℕ)
    → All (λ t. t ≤ last) times
    → last + window ≤ now
    → in_window now window times ≡ []
in_window-late now last window [] old late = refl
in_window-late now last window (t ∷ times) old late =
    ground (arith, in_window-late now last window times old.1 late, old.0)

has_score-later :
    (now last : ℕ) (times : List ℕ)
    → All (λ t. t ≤ last) times
    → last < now
    → has_score now times ≡ false
has_score-later now last [] old late = refl
has_score-later now last (t ∷ times) old late =
    ground (arith, has_score-later now last times old.1 late, old.0)

All-select :
    (last : ℕ) (keep : ℕ → Bool) (times : List ℕ)
    → All (λ t. t ≤ last) times
    → All (λ t. t ≤ last) (select keep times)
All-select last keep [] h = tt
All-select last keep (t ∷ times) h = elim (Bool-cases (keep t)) [
  | inl hit ↦ rw (hit) (h.0, All-select last keep times h.1)
  | inr miss ↦ rw (miss) (All-select last keep times h.1)
]

All-mono :
    (last now : ℕ) (times : List ℕ)
    → last ≤ now
    → All (λ t. t ≤ last) times
    → All (λ t. t ≤ now) times
All-mono last now [] le h = tt
All-mono last now (t ∷ times) le h = (omega (arith, h.0), All-mono last now times le h.1)

module _ (r : Redis) (id max_requests window_seconds : ℕ) where
  abbrev window : ℕ
  window = window_seconds * 1000

  abbrev bucket : Key
  bucket = key rate_limit id

  -- What the sorted set has left of the history is what counts, from `last` on.
  abbrev Agrees : ℕ → List ℕ → r.Store → Type 0
  Agrees last history s =
      (now : ℕ)
      → last ≤ now
      → in_window now window (r.scores now bucket s) ≡ in_window now window history

  abbrev after_request : ℕ → r.Store → r.Store
  after_request now s =
      r.expire now window_seconds bucket
        (r.z_add now now bucket (r.z_rem_before now window bucket s))

  module _ (last now : ℕ) (history : List ℕ) (s : r.Store) (later : last < now)
      (old : All (λ t. t ≤ last) history) (agrees : Agrees last history s) where
    kept_lem :
        r.scores now bucket (r.z_rem_before now window bucket s) ≡ in_window now window history
    kept_lem = r.scores-z_rem_before now window bucket s ∙ agrees now (omega arith)

    added_lem :
        r.scores now bucket (r.z_add now now bucket (r.z_rem_before now window bucket s))
        ≡ in_window now window history ++ (now ∷ [])
    added_lem =
        r.scores-z_add now now bucket (r.z_rem_before now window bucket s)
        ∙ ap (add_score now) kept_lem
        ∙ ap
            (λ b.
              if b
              then in_window now window history
              else in_window now window history ++ (now ∷ []))
            (has_score-later now last (in_window now window history)
              (All-select last (λ u. ltb now (u + window)) history old) later)

    after-Agrees : Agrees now (history ++ (now ∷ [])) (after_request now s)
    after-Agrees t le = elim (Bool-cases (ltb t (now + window))) [
      | inl early ↦
          ap (in_window t window) (
            r.scores-expire now t window_seconds bucket
              (r.z_add now now bucket (r.z_rem_before now window bucket s)) le
            ∙ ap
                (λ b.
                  if b
                  then r.scores now bucket
                      (r.z_add now now bucket (r.z_rem_before now window bucket s))
                  else [])
                early
            ∙ added_lem)
          ∙ select-append (λ u. ltb t (u + window)) (in_window now window history) (now ∷ [])
          ∙ ap (λ us. us ++ in_window t window (now ∷ []))
              (in_window-in_window now t window history le)
          ∙ sym (select-append (λ u. ltb t (u + window)) history (now ∷ []))
      | inr late ↦
          ap (in_window t window) (
            r.scores-expire now t window_seconds bucket
              (r.z_add now now bucket (r.z_rem_before now window bucket s)) le
            ∙ ap
                (λ b.
                  if b
                  then r.scores now bucket
                      (r.z_add now now bucket (r.z_rem_before now window bucket s))
                  else [])
                late)
          ∙ sym (
              in_window-late t now window (history ++ (now ∷ []))
                (All-append (λ u. u ≤ now) history (now ∷ [])
                  (All-mono last now history (omega arith) old) (omega arith, tt))
                (ground arith))
    ]

  -- The answers to requests at the given times, one after the other.
  abbrev pub requests : List ℕ → Session r.Store → List (Result Verdict)
  requests [] s = []
  requests (now ∷ times) s =
      let first = check_rate_limit r now id max_requests window_seconds s in
      first.0 ∷ requests times first.1

  check_rate_limit_lem :
      (now : ℕ) (s view : r.Store)
      → check_rate_limit r now id max_requests window_seconds (calm s view) ≡ (
        ok (
            verdict max_requests
              (length (r.scores now bucket (r.z_rem_before now window bucket s)))),
        calm (after_request now s) (after_request now view),
      )
  unfolding check_rate_limit on_pool
  check_rate_limit_lem now s view =
      rw (r.z_card_lem now bucket (r.z_rem_before now window bucket s)) refl

  requests_lem :
      (last : ℕ) (history times : List ℕ) (s view : r.Store)
      → GrowsFrom last times
      → All (λ t. t ≤ last) history
      → Agrees last history s
      → requests times (calm s view) ≡ map ok (reference max_requests window history times)
  requests_lem last history [] s view grows old agrees = refl
  requests_lem last history (now ∷ times) s view grows old agrees =
      let step = check_rate_limit_lem now s view in
      ap (λ p. p.0 ∷ requests times p.1) step
      ∙ ap
          (λ us.
            ok (verdict max_requests (length us))
            ∷ requests times (calm (after_request now s) (after_request now view)))
          (kept_lem last now history s grows.0 old agrees)
      ∙ ap (λ rest. ok (verdict max_requests (length (in_window now window history))) ∷ rest)
          (requests_lem now (history ++ (now ∷ [])) times (after_request now s)
            (after_request now view) grows.1
            (All-append (λ u. u ≤ now) history (now ∷ [])
              (All-mono last now history (omega (arith, grows.0)) old) (omega arith, tt))
            (after-Agrees last now history s grows.0 old agrees))

-- If Redis answers and each request comes at a later millisecond than the one before, the limiter,
-- which prunes and expires its set, answers each request as the reference does: with the number of
-- all the requests that are less than a window old, the refused ones too.
pub requests-reference :
    (r : Redis) (id max_requests window_seconds : ℕ) (times : List ℕ) (s view : r.Store)
    → GrowsFrom 0 times
    → ((now : ℕ) → r.scores now (key rate_limit id) s ≡ [])
    → requests r id max_requests window_seconds times (calm s view)
      ≡ map ok (reference max_requests (window_seconds * 1000) [] times)
requests-reference r id max_requests window_seconds times s view grows empty =
    requests_lem r id max_requests window_seconds 0 [] times s view grows tt
      (λ now le. ap (in_window now (window_seconds * 1000)) (empty now))
