-- ===== src/Outbox/Timers.antt =====
-- The timer and the connections of an `OutboxPoller` (packages/shared/src/outbox/outbox.poller.ts)
-- over its whole life.
use banking_platform.Base.{
  ℕ, zero, suc, ◌≤◌, ◌≡◌, refl, ap, Bool, true, false, if◌then◌else◌, arith,
}
use banking_platform.Outbox.Lifecycle.{
  PollerState, start_if, start, stop, connected, connected_of, refused, refused_of,
  connection_error, retried, retried_of, get_status, Step, starts, stops, connects, is_refused,
  fails, retries_setup, Reachable, new, after,
}

abbrev pub one_if : Bool → ℕ
one_if b = if b then 1 else 0

pub record IsTidy (interval_ms : ℕ) (p : PollerState) : Type 0 where
  pub timer : p.timers ≡ one_if p.is_running
  pub holds : one_if p.listening ≤ p.held
  pub status : get_status p ≡ (p.is_running, interval_ms)

module _ (interval_ms : ℕ) where
  connected-IsTidy :
      (n : ℕ) (p : PollerState) → IsTidy interval_ms p → IsTidy interval_ms (connected_of n p)
  unfolding get_status
  connected-IsTidy zero p h = h
  connected-IsTidy (suc n) p h = record { timer = h.timer; holds = omega arith; status = h.status }

  refused-IsTidy :
      (n : ℕ) (p : PollerState) → IsTidy interval_ms p → IsTidy interval_ms (refused_of n p)
  unfolding get_status
  refused-IsTidy zero p h = h
  refused-IsTidy (suc n) p h = record { timer = h.timer; holds = h.holds; status = h.status }

  retried-IsTidy :
      (n : ℕ) (p : PollerState) → IsTidy interval_ms p → IsTidy interval_ms (retried_of n p)
  unfolding get_status
  retried-IsTidy zero p h = h
  retried-IsTidy (suc n) p h = record { timer = h.timer; holds = h.holds; status = h.status }

  start-IsTidy :
      (has_pool running : Bool) (p : PollerState)
      → p.is_running ≡ running
      → IsTidy interval_ms p
      → IsTidy interval_ms (start_if running has_pool p)
  unfolding get_status
  start-IsTidy has_pool true p e h = h
  start-IsTidy has_pool false p e h = (record {
    timer = (let t : p.timers ≡ 0 = rw (e) at h.timer in omega arith);
    holds = h.holds;
    status = ap (λ (x : Bool × ℕ). (true, x.1)) h.status;
  })

  step-IsTidy : (p q : PollerState) → Step p q → IsTidy interval_ms p → IsTidy interval_ms q
  unfolding start stop connected refused connection_error retried get_status
  step-IsTidy _ _ (starts has_pool p) h = start-IsTidy has_pool p.is_running p refl h
  step-IsTidy _ _ (stops p) h = record {
    timer = (let t = h.timer in ground arith);
    holds = omega arith;
    status = ap (λ (x : Bool × ℕ). (false, x.1)) h.status;
  }
  step-IsTidy _ _ (connects p) h = connected-IsTidy p.connecting p h
  step-IsTidy _ _ (is_refused p) h = refused-IsTidy p.connecting p h
  step-IsTidy _ _ (fails p) h = record { timer = h.timer; holds = omega arith; status = h.status }
  step-IsTidy _ _ (retries_setup p) h = retried-IsTidy p.retries p h

-- Whatever starts, stops, connections, refusals, errors and retries come in whatever order: exactly
-- one interval runs while the poller runs, none while it does not, however often it was started; a
-- poller that listens holds a connection; and `getStatus` tells whether it runs and its interval.
pub Reachable-IsTidy :
    (interval_ms : ℕ) (p : PollerState) → Reachable interval_ms p → IsTidy interval_ms p
unfolding get_status
Reachable-IsTidy interval_ms _ new = record { timer = refl; holds = omega arith; status = refl }
Reachable-IsTidy interval_ms _ (after p q reached step) =
    step-IsTidy interval_ms p q step (Reachable-IsTidy interval_ms p reached)
