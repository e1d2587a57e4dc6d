-- ===== src/Tests/CacheRuns.antt =====
-- The rate limiter and the entries of packages/shared/src/cache/cache-service.ts on a Redis in memory.
use banking_platform.Base.{
  ℕ, ◌+◌, ◌*◌, ◌≡◌, refl, String, true, false, none, some, List, [], ◌∷◌, map, if◌then◌else◌, ltb,
  arith,
}
use banking_platform.Shared.Errors.{ok}
use banking_platform.Shared.Database.{on_pool}
use banking_platform.Shared.Database.Progress.{calm}
use banking_platform.Cache.Redis.{balance}
use banking_platform.Cache.Service.{Codec, check_rate_limit, get_entry, set_entry}
use banking_platform.Cache.Window.{reference, requests, requests-reference}
use banking_platform.Cache.Entries.{get_entry-set_entry}
use banking_platform.Tests.MemoryRedis.{memory_redis, empty_memory}

abbrev times : List ℕ
times = 5000 ∷ 5400 ∷ 5900 ∷ 6700 ∷ []

-- Two requests for each second: the third is refused, and counts for the fourth.
refused_third :
    requests memory_redis 7 2 1 times (calm empty_memory empty_memory)
    ≡ ok (record { allowed = true; remaining = 1 })
      ∷ ok (record { allowed = true; remaining = 0 })
      ∷ ok (record { allowed = false; remaining = 0 })
      ∷ ok (record { allowed = true; remaining = 0 })
      ∷ []
unfolding check_rate_limit on_pool
refused_third = refl

requests-reference_example :
    requests memory_redis 7 2 1 times (calm empty_memory empty_memory)
    ≡ map ok (reference 2 (1 * 1000) [] times)
requests-reference_example =
    requests-reference memory_redis 7 2 1 times empty_memory empty_memory
      (omega arith, (omega arith, (omega arith, (omega arith, tt)))) (λ now. refl)

-- Texts as they are.
abbrev plain : Codec String
plain = record { print = λ s. s; parse = λ s. some s }

read_in_time :
    (get_entry memory_redis plain 5200 balance 7
      (set_entry memory_redis plain 5000 balance 60 7 "100.00"
        (calm empty_memory empty_memory)).1).0
    ≡ ok (if ltb 5200 (5000 + 60 * 1000) then some "100.00" else none)
read_in_time =
    get_entry-set_entry memory_redis plain 5000 5200 60 7 balance "100.00" empty_memory empty_memory
      refl refl
