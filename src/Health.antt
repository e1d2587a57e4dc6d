-- ===== src/Health.antt =====
-- `HealthChecker` (packages/shared/src/health/health-checker.ts). How long a probe took, or that it
-- failed, is a parameter; times are milliseconds.
pub mod Worst
use Prim.Native.String.{◌++◌ as ◌<>◌}
use banking_platform.Base.{
  ℕ, ◌-◌, ltb, String, Bool, true, false, ◌||◌, Option, none, some, List, [], ◌∷◌, if◌then◌else◌,
}

pub data HealthStatus : Type 0 where
  healthy degraded unhealthy : HealthStatus

pub record DependencyHealth : Type 0 where
  pub status : HealthStatus
  pub message : String
  pub latency_ms : Option ℕ

-- A probe that answered after a time, or the message of its error.
pub data Probe (A : Type 0) : Type 0 where
  answered : A → (latency_ms : ℕ) → Probe A
  failed : (message : String) → Probe A

-- What the argument `eventBusConnection` is.
pub data Connection : Type 0 where
  absent : Connection
  nats : Probe (Bool × Bool) → Connection
  kafka : Probe (Unit {0}) → Connection
  unknown : Connection

-- `{ running, intervalMs }`.
pub record PollerStatus : Type 0 where
  pub running : Bool
  pub interval_ms : ℕ

abbrev pub down : String → DependencyHealth
down message = record { status = unhealthy; message = message; latency_ms = none }

-- An answer after a time, by the limit below which it counts as fast.
abbrev pub by_latency : (limit latency_ms : ℕ) → DependencyHealth
by_latency limit latency_ms = record {
  status = if ltb latency_ms limit then healthy else degraded;
  message = if ltb latency_ms limit then "Connected" else "Slow response";
  latency_ms = some latency_ms;
}

unfoldable pub check_database : Probe (Unit {0}) → DependencyHealth
check_database (answered _ latency_ms) = by_latency 100 latency_ms
check_database (failed message) = down message

-- `isClosed()` and `isDraining()`.
abbrev pub by_state : (closed draining : Bool) → DependencyHealth
by_state true draining = down "Connection closed"
by_state false true = record {
  status = degraded;
  message = "Connection draining";
  latency_ms = none;
}
by_state false false = record { status = healthy; message = "Connected"; latency_ms = none }

unfoldable pub check_nats : Probe (Bool × Bool) → DependencyHealth
check_nats (answered (closed, draining) _) = by_state closed draining
check_nats (failed message) = down message

unfoldable pub check_kafka : Probe (Unit {0}) → DependencyHealth
check_kafka (answered _ latency_ms) = by_latency 200 latency_ms
check_kafka (failed message) = down message

unfoldable pub check_event_bus : Connection → DependencyHealth
unfolding check_nats check_kafka
check_event_bus absent = down "Not connected"
check_event_bus (nats probe) = check_nats probe
check_event_bus (kafka probe) = check_kafka probe
check_event_bus unknown = down "Unknown event bus type"

unfoldable pub check_redis : Probe Bool → DependencyHealth
check_redis (answered true latency_ms) = by_latency 50 latency_ms
check_redis (answered false latency_ms) = down "Health check failed"
check_redis (failed message) = down message

module _ (print : ℕ → String) where
  unfoldable pub check_outbox_poller : PollerStatus → DependencyHealth
  check_outbox_poller s =
      if s.running
      then record {
        status = healthy;
        message = "Running (" <> print s.interval_ms <> "ms interval)";
        latency_ms = none;
      }
      else down "Poller not running"

abbrev pub same_status : HealthStatus → HealthStatus → Bool
same_status healthy healthy = true
same_status degraded degraded = true
same_status unhealthy unhealthy = true
same_status _ _ = false

abbrev pub includes_status : HealthStatus → List HealthStatus → Bool
includes_status status [] = false
includes_status status (s ∷ rest) = same_status s status || includes_status status rest

unfoldable pub aggregate_status : List HealthStatus → HealthStatus
aggregate_status statuses =
    if includes_status unhealthy statuses
    then unhealthy
    else if includes_status degraded statuses
    then degraded
    else healthy

pub record HealthCheck : Type 0 where
  pub status : HealthStatus
  pub service : String
  pub version : String
  pub timestamp : ℕ
  pub uptime : ℕ
  pub database : DependencyHealth
  pub event_bus : DependencyHealth
  pub redis : Option DependencyHealth
  pub outbox_poller : Option DependencyHealth

-- The statuses that are there.
abbrev pub with_status : Option DependencyHealth → List HealthStatus → List HealthStatus
with_status none rest = rest
with_status (some d) rest = d.status ∷ rest

abbrev pub optional : {A : Type 0} → (A → DependencyHealth) → Option A → Option DependencyHealth
optional f none = none
optional f (some a) = some (f a)

pub record HealthChecker : Type 0 where
  pub service_name : String
  pub version : String
  pub start_time : ℕ

-- `check`.
unfoldable pub check :
    (ℕ → String)
    → HealthChecker
    → (now : ℕ) → Probe (Unit {0})
    → Connection
    → Option PollerStatus
    → Option (Probe Bool)
    → HealthCheck
check print checker now db bus poller redis =
    let database = check_database db in
    let event_bus = check_event_bus bus in
    let redis_health = optional check_redis redis in
    let outbox_health = optional (check_outbox_poller print) poller in
    record {
      status = aggregate_status (
          database.status
          ∷ event_bus.status
          ∷ with_status redis_health (with_status outbox_health []));
      service = checker.service_name;
      version = checker.version;
      timestamp = now;
      uptime = now - checker.start_time;
      database = database;
      event_bus = event_bus;
      redis = redis_health;
      outbox_poller = outbox_health;
    }
