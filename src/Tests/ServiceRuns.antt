-- ===== src/Tests/ServiceRuns.antt =====
-- The GraphQL gateway, the health checks, the metrics and the controllers at small inputs.
use banking_platform.Base.{ℕ, ◌≡◌, refl, String, Bool, true, false, none, some, List, [], ◌∷◌}
use banking_platform.Health.{
  degraded, unhealthy, answered, nats, check, check_database, check_event_bus, check_nats,
  check_outbox_poller, aggregate_status,
}
use banking_platform.Metrics.{Finished, new_http_metrics, on_finish}
use banking_platform.Metrics.Requests.{observe_all, sum}

abbrev says_nothing : String → Bool
says_nothing s = false

abbrev same : String → String
same s = s

abbrev print : ℕ → String
print n = "0"

-- A bus that drains degrades a service; a poller that stands still makes it unhealthy.
draining :
    (check print
      (record { service_name = "c"; version = "1.0.0"; start_time = 0 })
      9
      (answered tt 12)
      (nats (answered (false, true) 0))
      none
      none).status
    ≡ degraded
unfolding check check_database check_event_bus check_nats aggregate_status
draining = refl

standing :
    (check print
      (record { service_name = "c"; version = "1.0.0"; start_time = 0 })
      9
      (answered tt 12)
      (nats (answered (false, true) 0))
      (some (record { running = false; interval_ms = 5000 }))
      none).status
    ≡ unhealthy
unfolding check check_database check_event_bus check_nats check_outbox_poller aggregate_status
standing = refl

abbrev finished : List Finished
finished =
    record { method = "GET"; route = "/a"; status = 200; duration = 4 }
    ∷ record { method = "GET"; route = "/a"; status = 503; duration = 9 }
    ∷ []

one_error : sum (observe_all print finished new_http_metrics).request_errors ≡ 1
unfolding on_finish
one_error = refl
