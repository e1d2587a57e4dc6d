-- ===== src/Ai/Pacing.antt =====
-- How many calls run at once and how close they follow each other under `LLMRateLimiter`
-- (packages/ai-service/src/providers/llm.provider.ts).
use banking_platform.Base.{
  ℕ, ◌+◌, ◌≤◌, ◌<◌, leb, ltb, ◌≡◌, refl, ◌&&◌, List, [], ◌∷◌, Bool-cases, inl, inr, arith,
}
use banking_platform.Ai.Limiter.{
  Limiter, new_limiter, granted, again_in, try_acquire, release, Call, try_at, end_of_call, grant,
  run,
}

-- Each time is at least `gap` after the one that follows it in the list.
abbrev pub Spaced : ℕ → List ℕ → Type 0
Spaced gap [] = Unit {0}
Spaced gap (t ∷ []) = Unit {0}
Spaced gap (t ∷ u ∷ times) = (u + gap ≤ t) × Spaced gap (u ∷ times)

-- The last grant is the one that the limiter remembers.
abbrev pub Remembers : List ℕ → Limiter → Type 0
Remembers [] l = Unit {0}
Remembers (t ∷ times) l = l.last_call_at ≡ t

pub record IsPaced (max gap : ℕ) (times : List ℕ) (l : Limiter) : Type 0 where
  pub limits : (l.max_concurrent ≡ max) × (l.min_interval_ms ≡ gap)
  pub bounded : l.running ≤ max
  pub spaced : Spaced gap times
  pub remembers : Remembers times l

grant-IsPaced :
    (max gap now : ℕ) (times : List ℕ) (l : Limiter)
    → l.running < max
    → l.last_call_at + gap ≤ now
    → IsPaced max gap times l
    → IsPaced max gap (now ∷ times) (record l { running = l.running + 1; last_call_at = now })
grant-IsPaced max gap now [] l free late h = record {
  limits = h.limits;
  bounded = omega arith;
  spaced = tt;
  remembers = refl;
}
grant-IsPaced max gap now (t ∷ times) l free late h = record {
  limits = h.limits;
  bounded = omega arith;
  spaced = (omega (arith, h.remembers), h.spaced);
  remembers = refl;
}

try_acquire-IsPaced :
    (max gap now : ℕ) (times : List ℕ) (l : Limiter)
    → IsPaced max gap times l
    → IsPaced max gap (grant (try_acquire now l).0 now times) (try_acquire now l).1
unfolding try_acquire
try_acquire-IsPaced max gap now times l h =
    elim (Bool-cases
      (ltb l.running l.max_concurrent && leb (l.last_call_at + l.min_interval_ms) now)) [
        | inl free ↦ rw (free) (
            grant-IsPaced max gap now times l (ground (arith, h.limits)) (ground (arith, h.limits))
              h)
        | inr busy ↦ rw (busy) h
      ]

release-IsPaced :
    (max gap : ℕ) (times : List ℕ) (l : Limiter)
    → IsPaced max gap times l
    → IsPaced max gap times (release l)
unfolding release
release-IsPaced max gap [] l h = record {
  limits = h.limits;
  bounded = omega (arith, h.bounded);
  spaced = h.spaced;
  remembers = h.remembers;
}
release-IsPaced max gap (t ∷ times) l h = record {
  limits = h.limits;
  bounded = omega (arith, h.bounded);
  spaced = h.spaced;
  remembers = h.remembers;
}

run-keeps :
    (max gap : ℕ) (calls : List Call) (times : List ℕ) (l : Limiter)
    → IsPaced max gap times l
    → IsPaced max gap (run calls times l).0 (run calls times l).1
unfolding run
run-keeps max gap [] times l h = h
run-keeps max gap (try_at now ∷ calls) times l h =
    run-keeps max gap calls _ _ (try_acquire-IsPaced max gap now times l h)
run-keeps max gap (end_of_call ∷ calls) times l h =
    run-keeps max gap calls times (release l) (release-IsPaced max gap times l h)

-- Whatever tries and ends of calls come, at whatever times, a new limiter never lets more calls run
-- than `maxConcurrent`, and any two grants that follow each other are at least `minIntervalMs` apart.
pub run-IsPaced :
    (max gap : ℕ) (calls : List Call)
    → IsPaced max gap (run calls [] (new_limiter max gap)).0 (run calls [] (new_limiter max gap)).1
run-IsPaced max gap calls =
    run-keeps max gap calls [] (new_limiter max gap)
      (record { limits = (refl, refl); bounded = omega arith; spaced = tt; remembers = tt })

-- A try that is refused only for the interval succeeds after the wait that it was told, if no other
-- call was granted meanwhile.
pub try_acquire-retry :
    (now wait later : ℕ) (l : Limiter)
    → l.running < l.max_concurrent
    → (try_acquire now l).0 ≡ again_in wait
    → now + wait ≤ later
    → (try_acquire later l).0 ≡ granted
unfolding try_acquire
try_acquire-retry now wait later l free refused after = ground arith
