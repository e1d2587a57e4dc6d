-- ===== src/Health/Worst.antt =====
-- What the overall status of `HealthChecker` (packages/shared/src/health/health-checker.ts) means.
use banking_platform.Base.{
  ℕ, ◌≡◌, refl, ap, ◌∙◌, String, Bool, true, false, ◌||◌, Option, none, some, List, [], ◌∷◌,
  if◌then◌else◌,
}
use banking_platform.Health.{
  HealthStatus, healthy, degraded, unhealthy, DependencyHealth, Probe, Connection, PollerStatus,
  HealthChecker, includes_status, same_status, with_status, aggregate_status, check, check_database,
  check_event_bus, check_outbox_poller, check_redis, optional,
}

-- The worse of two statuses.
abbrev pub worse : HealthStatus → HealthStatus → HealthStatus
worse unhealthy t = unhealthy
worse degraded unhealthy = unhealthy
worse degraded degraded = degraded
worse degraded healthy = degraded
worse healthy t = t

abbrev pub worst : List HealthStatus → HealthStatus
worst [] = healthy
worst (s ∷ rest) = worse s (worst rest)

abbrev pub worse_of : Option DependencyHealth → HealthStatus → HealthStatus
worse_of none t = t
worse_of (some d) t = worse d.status t

-- The aggregation by what the list includes.
aggregate_by : Bool → Bool → HealthStatus
aggregate_by has_unhealthy has_degraded =
    if has_unhealthy then unhealthy else if has_degraded then degraded else healthy

aggregate_cons :
    (s : HealthStatus) (u d : Bool)
    → aggregate_by (same_status s unhealthy || u) (same_status s degraded || d)
      ≡ worse s (aggregate_by u d)
unfolding aggregate_by
aggregate_cons healthy u d = refl
aggregate_cons degraded true d = refl
aggregate_cons degraded false true = refl
aggregate_cons degraded false false = refl
aggregate_cons unhealthy u d = refl

aggregate_worst : (statuses : List HealthStatus) → aggregate_status statuses ≡ worst statuses
unfolding aggregate_status aggregate_by
aggregate_worst [] = refl
aggregate_worst (s ∷ rest) =
    aggregate_cons s (includes_status unhealthy rest) (includes_status degraded rest)
    ∙ ap (worse s) (aggregate_worst rest)

worst-with_status :
    (d : Option DependencyHealth) (rest : List HealthStatus)
    → worst (with_status d rest) ≡ worse_of d (worst rest)
worst-with_status none rest = refl
worst-with_status (some d) rest = refl

-- The overall status of a check is the worst status among the dependencies that it reports; those that
-- are not configured do not count.
pub check-worst :
    (print : ℕ → String) (checker : HealthChecker) (now : ℕ) (db : Probe (Unit {0}))
    (bus : Connection) (poller : Option PollerStatus) (redis : Option (Probe Bool))
    → (check print checker now db bus poller redis).status
      ≡ worse (check print checker now db bus poller redis).database.status (
          worse (check print checker now db bus poller redis).event_bus.status (
            worse_of
              (check print checker now db bus poller redis).redis
              (worse_of (check print checker now db bus poller redis).outbox_poller healthy)))
unfolding check
check-worst print checker now db bus poller redis =
    let redis_health = optional check_redis redis in
    let outbox_health = optional (check_outbox_poller print) poller in
    aggregate_worst (
      (check_database db).status
      ∷ (check_event_bus bus).status
      ∷ with_status redis_health (with_status outbox_health []))
    ∙ ap (λ s. worse (check_database db).status (worse (check_event_bus bus).status s))
        (worst-with_status redis_health (with_status outbox_health [])
          ∙ ap (worse_of redis_health) (worst-with_status outbox_health []))
