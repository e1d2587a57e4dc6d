-- ===== src/Outbox/Lifecycle.antt =====
-- The life of an `OutboxPoller` (packages/shared/src/outbox/outbox.poller.ts): its timer and its
-- `LISTEN` connection. Connecting takes time, so other signals may come in between.
use banking_platform.Base.{ℕ, zero, suc, ◌+◌, ◌-◌, Bool, true, false, if◌then◌else◌}

pub record PollerState : Type 0 where
  pub interval_ms : ℕ
  pub is_running : Bool
  -- intervals that have not been cleared
  pub timers : ℕ
  -- `listenClient` is set
  pub listening : Bool
  -- calls of `setupListener` that wait for `pool.connect()`
  pub connecting : ℕ
  -- calls of `setupListener` that wait for their two seconds
  pub retries : ℕ
  -- connections taken from the pool and not released
  pub held : ℕ

abbrev pub new_poller : ℕ → PollerState
new_poller interval_ms = record {
  interval_ms = interval_ms;
  is_running = false;
  timers = 0;
  listening = false;
  connecting = 0;
  retries = 0;
  held = 0;
}

abbrev pub start_if : (running has_pool : Bool) → PollerState → PollerState
start_if true has_pool p = p
start_if false has_pool p = record p {
  is_running = true;
  timers = p.timers + 1;
  connecting = if has_pool then p.connecting + 1 else p.connecting;
}

-- `start`, with a pool or without one.
unfoldable pub start : (has_pool : Bool) → PollerState → PollerState
start has_pool p = start_if p.is_running has_pool p

-- `clearInterval` of the one interval that `intervalId` names, and the release of the connection.
unfoldable pub stop : PollerState → PollerState
stop p = record p {
  is_running = false;
  timers = p.timers - 1;
  listening = false;
  held = if p.listening then p.held - 1 else p.held;
}

abbrev pub connected_of : ℕ → PollerState → PollerState
connected_of zero p = p
connected_of (suc n) p = record p { connecting = n; listening = true; held = p.held + 1 }

-- `pool.connect()` answers, after whatever came before.
unfoldable pub connected : PollerState → PollerState
connected p = connected_of p.connecting p

abbrev pub refused_of : ℕ → PollerState → PollerState
refused_of zero p = p
refused_of (suc n) p = record p { connecting = n }

-- `pool.connect()` throws, which is only logged.
unfoldable pub refused : PollerState → PollerState
refused p = refused_of p.connecting p

-- The event `error` of a connection.
unfoldable pub connection_error : PollerState → PollerState
connection_error p = record p {
  listening = false;
  held = if p.listening then p.held - 1 else p.held;
  retries = if p.is_running then p.retries + 1 else p.retries;
}

abbrev pub retried_of : ℕ → PollerState → PollerState
retried_of zero p = p
retried_of (suc n) p = record p { retries = n; connecting = p.connecting + 1 }

unfoldable pub retried : PollerState → PollerState
retried p = retried_of p.retries p

-- `getStatus`.
unfoldable pub get_status : PollerState → Bool × ℕ
get_status p = (p.is_running, p.interval_ms)

-- What may happen next.
pub data Step : PollerState → PollerState → Type 0 where
  starts : (has_pool : Bool) (p : PollerState) → Step p (start has_pool p)
  stops : (p : PollerState) → Step p (stop p)
  connects : (p : PollerState) → Step p (connected p)
  is_refused : (p : PollerState) → Step p (refused p)
  fails : (p : PollerState) → Step p (connection_error p)
  retries_setup : (p : PollerState) → Step p (retried p)

pub data Reachable (interval_ms : ℕ) : PollerState → Type 0 where
  new : Reachable interval_ms (new_poller interval_ms)
  after : (p q : PollerState) → Reachable interval_ms p → Step p q → Reachable interval_ms q
