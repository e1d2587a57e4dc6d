-- ===== src/Dlq/Handler.antt =====
-- `DLQHandler` (packages/shared/src/dlq/dlq.handler.ts). The wrapped handler is a parameter: whether
-- it throws.
use banking_platform.Base.{
  ℕ, ◌+◌, ◌==◌, leb, String, Bool, true, false, Option, none, some, List, [], ◌∷◌, select, not,
  if◌then◌else◌,
}
use banking_platform.Shared.Errors.{Error, ok}
use banking_platform.Shared.Events.{Payload, DomainEvent}
use banking_platform.Shared.Database.{Action, pure, throw, ◌>>=◌, ◌>>◌, try_catch}
use banking_platform.Dlq.Repository.{
  DlqEvent, Desk, resolved, is_failed, add, update, increment_failure_count, exists,
  find_by_event_id, find_by_service,
}

-- `DLQHandlerConfig`.
pub record Config : Type 0 where
  pub max_retries : ℕ
  pub service_name : String
  pub consumer_group : Option String

-- `retryAttempts.get(eventId) || 0`.
abbrev pub attempts_of : ℕ → List (ℕ × ℕ) → ℕ
attempts_of id [] = 0
attempts_of id (p ∷ ps) = let rest = attempts_of id ps in if p.0 == id then p.1 else rest

abbrev pub without : ℕ → List (ℕ × ℕ) → List (ℕ × ℕ)
without id ps = select (λ p. not (p.0 == id)) ps

-- The counters are in memory, where no statement fails.
abbrev pub set_attempts : (List (ℕ × ℕ) → List (ℕ × ℕ)) → Action Desk (Unit {0})
set_attempts f s = (
  ok tt,
  record s {
    db = record s.db { attempts = f s.db.attempts };
    view = record s.view { attempts = f s.view.attempts };
  },
)

abbrev pub get_attempts : ℕ → Action Desk ℕ
get_attempts id s = (ok (attempts_of id s.db.attempts), s)

module _ (config : Config) where
  module _ (event : DomainEvent Payload) (id now : ℕ) where
    abbrev pub add_or_count : Error → Bool → Action Desk (Unit {0})
    add_or_count error true = increment_failure_count now event.id error
    add_or_count error false = add id now (record {
      event_id = event.id;
      event_data = event.payload;
      original_error = error;
      failure_count = config.max_retries;
      correlation_id = event.correlation_id;
      service_name = config.service_name;
      consumer_group = config.consumer_group;
    })

    -- A failure in here is only logged.
    unfoldable pub move_to_dlq : Error → Action Desk (Unit {0})
    unfolding exists add increment_failure_count
    move_to_dlq error =
        try_catch (do there ← exists event.id; add_or_count error there) (λ _. pure tt)

    abbrev pub failed_again : Error → ℕ → Action Desk (Unit {0})
    failed_again error attempts =
        if leb config.max_retries attempts
        then (do move_to_dlq error; set_attempts (without event.id))
        else (do set_attempts (λ ps. (event.id, attempts) ∷ without event.id ps); throw error)

    abbrev pub wrapped : Option Error → ℕ → Action Desk (Unit {0})
    wrapped none attempts = set_attempts (without event.id)
    wrapped (some error) attempts = failed_again error (attempts + 1)

    -- The function that `wrap` returns, by what the handler does.
    unfoldable pub wrap : Option Error → Action Desk (Unit {0})
    unfolding move_to_dlq
    wrap outcome = do attempts ← get_attempts event.id; wrapped outcome attempts

  module _ (handle : DomainEvent Payload → Option Error) (now : ℕ) where
    abbrev pub event_of : DlqEvent → DomainEvent Payload
    event_of row = record {
      id = row.event_id;
      timestamp = row.first_failed_at;
      correlation_id = row.correlation_id;
      causation_id = none;
      payload = row.event_data;
    }

    abbrev pub throw_if : Option Error → Action Desk (Unit {0})
    throw_if none = pure tt
    throw_if (some e) = throw e

    abbrev pub retry_failed : DlqEvent → Action Desk Bool
    retry_failed row = do
      throw_if (handle (event_of row))
      update now row.id (record {
        status = some resolved;
        resolution_notes = some "Successfully retried from DLQ";
        resolved_by = some "system";
      })
      pure true

    abbrev pub retry_found : Option DlqEvent → Action Desk Bool
    retry_found none = pure false
    retry_found (some row) = if is_failed row.status then retry_failed row else pure false

    -- A failure of the count in the `catch` is thrown.
    unfoldable pub retry_from_dlq : ℕ → Action Desk Bool
    unfolding find_by_event_id update increment_failure_count
    retry_from_dlq event_id =
        try_catch (do row ← find_by_event_id event_id; retry_found row)
          (λ e. do increment_failure_count now event_id e; pure false)

    -- How many succeeded and how many failed.
    abbrev pub count : Bool → ℕ × ℕ → ℕ × ℕ
    count true n = (n.0 + 1, n.1)
    count false n = (n.0, n.1 + 1)

    abbrev pub retry_all : List DlqEvent → ℕ × ℕ → Action Desk (ℕ × ℕ)
    retry_all [] n = pure n
    retry_all (row ∷ rows) n = do
      success ← retry_from_dlq row.event_id
      retry_all rows (count success n)

    unfoldable pub retry_batch : ℕ → Action Desk (ℕ × ℕ)
    unfolding find_by_service retry_from_dlq
    retry_batch limit = do rows ← find_by_service config.service_name limit; retry_all rows (0, 0)
