-- ===== src/EventSourcing/Store.antt =====
-- `EventStoreRepository` (packages/shared/src/event-sourcing/event-store.repository.ts) over the two
-- tables of event-store.sql beside it: rows in the order of their insertion, with the tables' unique keys.
use Prim.Native.Nat.{max}
use banking_platform.Base.{
  ℕ, ◌+◌, ◌==◌, ltb, leb, Bool, true, false, ◌&&◌, ◌||◌, not, Option, none, some, List, [], ◌∷◌,
  ◌++◌, select, if◌then◌else◌,
}
use banking_platform.EventSourcing.Aggregate.{EventId, uuid, generated, Metadata}

-- `StoredEvent`, a row of `event_store`.
pub record StoredEvent (D : Type 0) : Type 0 where
  pub event_id : EventId
  pub aggregate_id : ℕ
  pub aggregate_type : ℕ
  pub event_data : D
  pub version : ℕ
  pub metadata : Metadata
  pub timestamp : ℕ

-- `Snapshot`, a row of `event_store_snapshots`.
pub record Snapshot (S : Type 0) : Type 0 where
  pub aggregate_id : ℕ
  pub aggregate_type : ℕ
  pub version : ℕ
  pub state : S
  pub created_at : ℕ

pub record AppendEventInput (D : Type 0) : Type 0 where
  pub event_id : EventId
  pub aggregate_id : ℕ
  pub aggregate_type : ℕ
  pub event_data : D
  pub expected_version : Option ℕ
  pub metadata : Metadata

pub record EventStore (S D : Type 0) : Type 0 where
  pub events : List (StoredEvent D)
  pub snapshots : List (Snapshot S)

pub data StoreError : Type 0 where
  concurrency_conflict : (expected current : ℕ) → StoreError
  duplicate_key : StoreError
  -- a text that the type UUID of a column refuses
  invalid_uuid : StoreError

-- A promise that is fulfilled, or rejected with an error; the store comes back either way.
pub data Outcome {ℓ} (A : Type ℓ) : Type ℓ where
  done : A → Outcome A
  failed : StoreError → Outcome A

-- An operation on the store: the store comes back after a throw too, with what was written.
abbrev pub Action : Type 0 → Type 0 → Type 0 → Type 0
Action S D A = EventStore S D → Outcome A × EventStore S D

abbrev pub pure : {S D A : Type 0} → A → Action S D A
pure a store = (done a, store)

-- What follows a call by how the call ended.
abbrev pub and_then :
    {S D A B : Type 0}
    → Outcome A × EventStore S D
    → (A → Action S D B)
    → Outcome B × EventStore S D
and_then (done a, store) f = f a store
and_then (failed e, store) f = (failed e, store)

infixl 5 ◌>>=◌
abbrev pub ◌>>=◌ : {S D A B : Type 0} → Action S D A → (A → Action S D B) → Action S D B
◌>>=◌ m f store = and_then (m store) f

abbrev pub is_uuid : EventId → Bool
is_uuid (uuid n) = true
is_uuid (generated n) = false

abbrev pub same_id : EventId → EventId → Bool
same_id (uuid m) (uuid n) = m == n
same_id (uuid m) (generated n) = false
same_id (generated m) (uuid n) = false
same_id (generated m) (generated n) = m == n

module _ {D : Type 0} where
  abbrev pub of_aggregate : ℕ → StoredEvent D → Bool
  of_aggregate id e = e.aggregate_id == id

  -- `SELECT COALESCE(MAX(version), 0) … WHERE aggregate_id = $1`.
  abbrev pub max_version : ℕ → List (StoredEvent D) → ℕ
  max_version id [] = 0
  max_version id (e ∷ es) =
      let rest = max_version id es in if e.aggregate_id == id then max e.version rest else rest

  -- `ORDER BY version ASC`, stable.
  abbrev pub insert_by_version : StoredEvent D → List (StoredEvent D) → List (StoredEvent D)
  insert_by_version e [] = e ∷ []
  insert_by_version e (f ∷ fs) =
      let rest = insert_by_version e fs in if leb e.version f.version then e ∷ f ∷ fs else f ∷ rest

  abbrev pub sort_by_version : List (StoredEvent D) → List (StoredEvent D)
  sort_by_version [] = []
  sort_by_version (e ∷ es) = insert_by_version e (sort_by_version es)

  -- Whether the primary key of `event_store` holds the identifier already.
  abbrev pub has_event : EventId → List (StoredEvent D) → Bool
  has_event id [] = false
  has_event id (e ∷ es) = same_id e.event_id id || has_event id es

  -- The row that an `append` at this version inserts.
  abbrev pub row_of : ℕ → ℕ → AppendEventInput D → StoredEvent D
  row_of now version input = record {
    event_id = input.event_id;
    aggregate_id = input.aggregate_id;
    aggregate_type = input.aggregate_type;
    event_data = input.event_data;
    version = version;
    metadata = input.metadata;
    timestamp = now;
  }

-- `expectedVersion !== undefined && expectedVersion !== currentVersion`.
abbrev pub version_differs : Option ℕ → ℕ → Bool
version_differs none current = false
version_differs (some expected) current = not (expected == current)

abbrev pub expected_or : Option ℕ → ℕ → ℕ
expected_or none d = d
expected_or (some v) d = v

module _ {S : Type 0} where
  -- `ORDER BY version DESC LIMIT 1`: the row of the greatest version.
  abbrev pub latest : ℕ → List (Snapshot S) → Option (Snapshot S)
  latest id [] = none
  latest id (s ∷ ss) =
      let rest = latest id ss in
      if s.aggregate_id == id
      then elim rest [ none ↦ some s | some t ↦ if ltb s.version t.version then some t else some s ]
      else rest

  -- `UNIQUE (aggregate_id, version)` of the snapshot table.
  abbrev pub has_snapshot : ℕ → ℕ → List (Snapshot S) → Bool
  has_snapshot id version [] = false
  has_snapshot id version (s ∷ ss) =
      (s.aggregate_id == id && s.version == version) || has_snapshot id version ss

module _ {S D : Type 0} where
  abbrev pub empty_store : EventStore S D
  empty_store = record { events = []; snapshots = [] }

  unfoldable pub get_current_version : ℕ → EventStore S D → ℕ
  get_current_version id store = max_version id store.events

  -- `append` at the time `now` of the database.
  unfoldable pub append : ℕ → AppendEventInput D → Action S D (StoredEvent D)
  unfolding get_current_version
  append now input store =
      let current = get_current_version input.aggregate_id store in
      let row = row_of now (current + 1) input in
      if version_differs input.expected_version current
      then (
        failed (concurrency_conflict (expected_or input.expected_version current) current),
        store,
      )
      else if not (is_uuid input.event_id)
      then (failed invalid_uuid, store)
      else if has_event input.event_id store.events
      then (failed duplicate_key, store)
      else (done row, record store { events = store.events ++ (row ∷ []) })

  -- The loop of `appendBatch`, on the view of the open transaction.
  unfoldable pub append_all : ℕ → List (AppendEventInput D) → Action S D (List (StoredEvent D))
  append_all now [] = pure []
  append_all now (input ∷ inputs) = do
    row ← append now input
    rows ← append_all now inputs
    pure (row ∷ rows)

  -- `COMMIT` of the view, or `ROLLBACK` to the store if an `append` threw.
  abbrev pub conclude :
      EventStore S D
      → Outcome (List (StoredEvent D)) × EventStore S D
      → Outcome (List (StoredEvent D)) × EventStore S D
  conclude store (done rows, view) = (done rows, view)
  conclude store (failed e, view) = (failed e, store)

  unfoldable pub append_batch :
      ℕ
      → List (AppendEventInput D)
      → EventStore S D
      → Outcome (List (StoredEvent D)) × EventStore S D
  unfolding append_all
  append_batch now inputs store = conclude store (append_all now inputs store)

  unfoldable pub get_events : ℕ → ℕ → EventStore S D → List (StoredEvent D)
  get_events id from_version store =
      sort_by_version
        (select (λ e. e.aggregate_id == id && ltb from_version e.version) store.events)

  unfoldable pub get_latest_snapshot : ℕ → EventStore S D → Option (Snapshot S)
  get_latest_snapshot id store = latest id store.snapshots

  unfoldable pub save_snapshot :
      ℕ → ℕ → ℕ → ℕ → S → EventStore S D → Outcome (Unit {0}) × EventStore S D
  save_snapshot now id aggregate_type version state store =
      if has_snapshot id version store.snapshots then (failed duplicate_key, store) else (
        done tt,
        record store {
          snapshots =
              store.snapshots
              ++ (record {
                aggregate_id = id;
                aggregate_type = aggregate_type;
                version = version;
                state = state;
                created_at = now;
              }
                  ∷ []);
        },
      )
