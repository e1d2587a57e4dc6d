-- ===== src/EventSourcing/Repository.antt =====
-- `AggregateRepository` (packages/shared/src/event-sourcing/aggregate.ts): `load` and `save`. The
-- abstract methods and the aggregate's `when` are parameters.
use banking_platform.Base.{ℕ, ◌-◌, ◌%◌, ◌==◌, Option, none, some, List, [], ◌∷◌, map, if◌then◌else◌}
use banking_platform.EventSourcing.Aggregate.{
  DomainEvent, Aggregate, mark_events_as_committed, load_from_history,
}
use banking_platform.EventSourcing.Store.{
  StoredEvent, Snapshot, AppendEventInput, EventStore, Outcome, done, failed, Action, pure, ◌>>=◌,
  append, get_events, get_latest_snapshot, save_snapshot,
}

module _ {D : Type 0} where
  -- A stored row as `loadFromHistory` reads it.
  abbrev pub to_domain : StoredEvent D → DomainEvent D
  to_domain e = record {
    event_id = e.event_id;
    event_data = e.event_data;
    version = e.version;
    timestamp = e.timestamp;
    metadata = e.metadata;
  }

  -- What `save` hands to `append`. Raised events have versions of 1 or more.
  abbrev pub input_of : ℕ → ℕ → DomainEvent D → AppendEventInput D
  input_of id aggregate_type event = record {
    event_id = event.event_id;
    aggregate_id = id;
    aggregate_type = aggregate_type;
    event_data = event.event_data;
    expected_version = some (event.version - 1);
    metadata = event.metadata;
  }

module _ {S D : Type 0} (when : DomainEvent D → S → S) (create_aggregate : ℕ → S → Aggregate S D)
    (initial_state : S) where
  -- `null` if there are no events, else their replay on the initial state.
  abbrev pub load_events : ℕ → List (StoredEvent D) → Option (Aggregate S D)
  load_events id [] = none
  load_events id (e ∷ es) =
      some (load_from_history when (map to_domain (e ∷ es)) (create_aggregate id initial_state))

  abbrev pub load_from : Option (Snapshot S) → ℕ → EventStore S D → Option (Aggregate S D)
  load_from (some snapshot) id store = some (
      load_from_history when (map to_domain (get_events id snapshot.version store))
        (create_aggregate id snapshot.state))
  load_from none id store = load_events id (get_events id 0 store)

  unfoldable pub load : ℕ → EventStore S D → Option (Aggregate S D)
  unfolding get_latest_snapshot get_events load_from_history
  load id store = load_from (get_latest_snapshot id store) id store

module _ {S D : Type 0} (aggregate_type : ℕ) where
  -- The loop over the uncommitted events: it stops at the first `append` that throws, and what
  -- was appended before stays.
  unfoldable pub append_events : ℕ → ℕ → List (DomainEvent D) → Action S D (Unit {0})
  append_events now id [] = pure tt
  append_events now id (event ∷ events) = do
    _ ← append now (input_of id aggregate_type event)
    append_events now id events

  -- `markEventsAsCommitted`, and a snapshot at every tenth version.
  abbrev pub after_append :
      ℕ → Aggregate S D → EventStore S D → Outcome (Unit {0}) × Aggregate S D × EventStore S D
  after_append now a store =
      let a' = mark_events_as_committed a in
      if (a.version % 10) == 0
      then (let (r, store') = save_snapshot now a.id aggregate_type a.version a.state store in
          (r, a', store'))
      else (done tt, a', store)

  abbrev pub conclude_save :
      ℕ
      → Aggregate S D
      → Outcome (Unit {0}) × EventStore S D
      → Outcome (Unit {0}) × Aggregate S D × EventStore S D
  conclude_save now a (done _, store) = after_append now a store
  conclude_save now a (failed e, store) = (failed e, a, store)

  abbrev pub save_events :
      ℕ
      → List (DomainEvent D)
      → Aggregate S D
      → EventStore S D
      → Outcome (Unit {0}) × Aggregate S D × EventStore S D
  save_events now [] a store = (done tt, a, store)
  save_events now (event ∷ events) a store =
      conclude_save now a (append_events now a.id (event ∷ events) store)

  -- `save` returns the aggregate too, since it changes it.
  unfoldable pub save :
      ℕ → Aggregate S D → EventStore S D → Outcome (Unit {0}) × Aggregate S D × EventStore S D
  unfolding append_events
  save now a store = save_events now a.uncommitted_events a store
