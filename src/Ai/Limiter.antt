-- ===== src/Ai/Limiter.antt =====
-- `LLMRateLimiter` (packages/ai-service/src/providers/llm.provider.ts). The waiting calls are timers
-- that try again; nothing is ever put into the field `queue`, which is left out.
use banking_platform.Base.{ℕ, ◌+◌, ◌-◌, leb, ltb, ◌&&◌, List, [], ◌∷◌, if◌then◌else◌}

pub record Limiter : Type 0 where
  pub max_concurrent : ℕ
  pub min_interval_ms : ℕ
  pub running : ℕ
  pub last_call_at : ℕ

abbrev pub new_limiter : ℕ → ℕ → Limiter
new_limiter max_concurrent min_interval_ms = record {
  max_concurrent = max_concurrent;
  min_interval_ms = min_interval_ms;
  running = 0;
  last_call_at = 0;
}

-- A promise that is resolved, or the time until the next try.
pub data Attempt : Type 0 where
  granted : Attempt
  again_in : (wait_ms : ℕ) → Attempt

-- `tryAcquire` at the time `now`.
unfoldable pub try_acquire : ℕ → Limiter → Attempt × Limiter
try_acquire now l =
    if ltb l.running l.max_concurrent && leb (l.last_call_at + l.min_interval_ms) now
    then (granted, record l { running = l.running + 1; last_call_at = now })
    else (again_in (l.last_call_at + l.min_interval_ms - now + 10), l)

unfoldable pub release : Limiter → Limiter
release l = record l { running = l.running - 1 }

-- What happens to the limiter: a try at a time, or the end of a call.
pub data Call : Type 0 where
  try_at : (now : ℕ) → Call
  end_of_call : Call

abbrev pub grant : Attempt → ℕ → List ℕ → List ℕ
grant granted now times = now ∷ times
grant (again_in _) now times = times

-- The times of the granted tries, the latest first, and the limiter after the calls.
unfoldable pub run : List Call → List ℕ → Limiter → List ℕ × Limiter
unfolding try_acquire release
run [] times l = (times, l)
run (try_at now ∷ calls) times l =
    run calls (grant (try_acquire now l).0 now times) (try_acquire now l).1
run (end_of_call ∷ calls) times l = run calls times (release l)
