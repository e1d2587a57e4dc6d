-- ===== src/EventSourcing/Aggregate.antt =====
-- The class `Aggregate` (packages/shared/src/event-sourcing/aggregate.ts). The abstract method
-- `when` is a parameter of the operations that call it.
use banking_platform.Base.{ℕ, ◌+◌, Bool, true, false, Option, List, [], ◌∷◌, ◌++◌, if◌then◌else◌}

-- The optional fields that a caller may attach to an event.
pub record Metadata : Type 0 where
  pub correlation_id : Option ℕ
  pub causation_id : Option ℕ
  pub user_id : Option ℕ

-- The text of an event identifier: a UUID, or what `generateEventId()` returns, a time and random
-- letters with a dash between them, which is no UUID.
pub data EventId : Type 0 where
  uuid : ℕ → EventId
  generated : ℕ → EventId

-- `DomainEventES`; `eventType` and `eventData` are one value of `D`.
pub record DomainEvent (D : Type 0) : Type 0 where
  pub event_id : EventId
  pub event_data : D
  pub version : ℕ
  pub timestamp : ℕ
  pub metadata : Metadata

-- What `generateEventId()` and `new Date()` return during one call.
pub record Env : Type 0 where
  pub event_id : ℕ
  pub now : ℕ

pub record Aggregate (S D : Type 0) : Type 0 where
  pub id : ℕ
  pub state : S
  pub version : ℕ
  pub uncommitted_events : List (DomainEvent D)

module _ {S D : Type 0} where
  -- The constructor, with the initial values of the fields.
  abbrev pub new_aggregate : ℕ → S → Aggregate S D
  new_aggregate id initial_state = record {
    id = id;
    state = initial_state;
    version = 0;
    uncommitted_events = [];
  }

  abbrev pub mark_events_as_committed : Aggregate S D → Aggregate S D
  mark_events_as_committed a = record a { uncommitted_events = [] }

module _ {S D : Type 0} (when : DomainEvent D → S → S) where
  unfoldable pub apply_event : DomainEvent D → Bool → Aggregate S D → Aggregate S D
  apply_event event is_new a =
      let state' = when event a.state in
      if is_new
      then record a {
        state = state';
        version = a.version + 1;
        uncommitted_events = a.uncommitted_events ++ (event ∷ []);
      }
      else record a { state = state' }

  unfoldable pub load_from_history : List (DomainEvent D) → Aggregate S D → Aggregate S D
  unfolding apply_event
  load_from_history [] a = a
  load_from_history (event ∷ events) a =
      load_from_history events (record (apply_event event false a) { version = event.version })

  unfoldable pub raise_event : Env → D → Metadata → Aggregate S D → Aggregate S D
  unfolding apply_event
  raise_event env event_data metadata a =
      apply_event
        (record {
          event_id = generated env.event_id;
          event_data = event_data;
          version = a.version + 1;
          timestamp = env.now;
          metadata = metadata;
        })
        true a
