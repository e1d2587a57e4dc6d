-- ===== src/EventSourcing/Streams.antt =====
-- The streams of the event store (packages/shared/src/event-sourcing/event-store.repository.ts): the
-- numbers of each aggregate's rows in the order of their insertion, and batches.
use Prim.Native.Nat.{max}
use banking_platform.Base.{
  ℕ, suc, ◌+◌, ◌≤◌, ◌==◌, ltb, ◌≡◌, refl, sym, ap, subst, ◌∙◌, ◌&&◌, List, [], ◌∷◌, ◌++◌, length,
  select, select-append, arith, if◌then◌else◌, Bool-cases, inl, inr, append-nil, append_assoc, ◌⊎◌,
  ==_refl,
}
use banking_platform.EventSourcing.Store.{
  StoredEvent, AppendEventInput, EventStore, StoreError, concurrency_conflict, duplicate_key,
  invalid_uuid, is_uuid, Outcome, done, failed, of_aggregate, max_version, insert_by_version,
  sort_by_version, has_event, row_of, version_differs, expected_or, get_current_version, append,
  append_all, append_batch, and_then, pure, conclude, get_events,
}

module _ {D : Type 0} where
  -- The rows of one aggregate.
  abbrev pub stream : ℕ → List (StoredEvent D) → List (StoredEvent D)
  stream id events = select (of_aggregate id) events

  -- Rows numbered one by one, from the version after `base` on.
  abbrev pub NumberedRows : ℕ → List (StoredEvent D) → Type 0
  NumberedRows base [] = Unit {0}
  NumberedRows base (e ∷ es) = (e.version ≡ base + 1) × NumberedRows (base + 1) es

  NumberedRows-append :
      (base : ℕ) (es : List (StoredEvent D)) (e : StoredEvent D)
      → NumberedRows base es
      → e.version ≡ base + length es + 1
      → NumberedRows base (es ++ (e ∷ []))
  NumberedRows-append base [] e h v = (omega arith, tt)
  NumberedRows-append base (f ∷ es) e h v =
      (h.0, NumberedRows-append (base + 1) es e h.1 (omega arith))

  -- On a numbered stream the greatest version is the number of the last row.
  max-max_version :
      (id base : ℕ) (es : List (StoredEvent D))
      → NumberedRows base (stream id es)
      → max base (max_version id es) ≡ base + length (stream id es)
  max-max_version id base [] h = omega arith
  max-max_version id base (e ∷ es) h = elim (Bool-cases (e.aggregate_id == id)) [
    | inl mine ↦
        let h' : (e.version ≡ base + 1) × NumberedRows (base + 1) (stream id es) = rw mine at h in
        rw mine (omega (arith, max-max_version id (base + 1) es h'.1, h'.0))
    | inr other ↦ rw other (max-max_version id base es (rw other at h))
  ]

  -- A row that goes behind the rows of its stream, for any aggregate.
  pub stream-append :
      (id : ℕ) (es : List (StoredEvent D)) (row : StoredEvent D)
      → stream id (es ++ (row ∷ []))
        ≡ (if row.aggregate_id == id then stream id es ++ (row ∷ []) else stream id es)
  stream-append id es row =
      select-append (of_aggregate id) es (row ∷ []) ∙ ground (arith, append-nil (stream id es))

  pub stream-append_self :
      (es : List (StoredEvent D)) (row : StoredEvent D)
      → stream row.aggregate_id (es ++ (row ∷ [])) ≡ stream row.aggregate_id es ++ (row ∷ [])
  stream-append_self es row = rw (stream-append row.aggregate_id es row, ==_refl row.aggregate_id)

  -- Sorting does nothing to a numbered stream.
  insert_by_version-first :
      (base : ℕ) (e : StoredEvent D) (es : List (StoredEvent D))
      → e.version ≤ base + 1
      → NumberedRows base es
      → insert_by_version e es ≡ e ∷ es
  insert_by_version-first base e [] v h = refl
  insert_by_version-first base e (f ∷ es) v h = ground arith

  sort_by_version-numbered :
      (base : ℕ) (es : List (StoredEvent D)) → NumberedRows base es → sort_by_version es ≡ es
  sort_by_version-numbered base [] h = refl
  sort_by_version-numbered base (e ∷ es) h =
      ap (insert_by_version e) (sort_by_version-numbered (base + 1) es h.1)
      ∙ insert_by_version-first (base + 1) e es (omega arith) h.1

  -- The rows after version 0 are all the rows of a numbered stream.
  select-numbered :
      (id base from : ℕ) (es : List (StoredEvent D))
      → from ≤ base
      → NumberedRows base (stream id es)
      → select (λ e. e.aggregate_id == id && ltb from e.version) es ≡ stream id es
  select-numbered id base from [] le h = refl
  select-numbered id base from (e ∷ es) le h = elim (Bool-cases (e.aggregate_id == id)) [
    | inl mine ↦
        let h' : (e.version ≡ base + 1) × NumberedRows (base + 1) (stream id es) = rw mine at h in
        rw mine (ground (arith, select-numbered id (base + 1) from es (omega arith) h'.1, h'.0))
    | inr other ↦ rw other (select-numbered id base from es le (rw other at h))
  ]

module _ {S D : Type 0} where
  -- Every aggregate's rows are numbered 1, 2, 3, … in the order of their insertion.
  abbrev pub IsNumbered : EventStore S D → Type 0
  IsNumbered store = (id : ℕ) → NumberedRows 0 (stream id store.events)

  pub get_current_version_lem :
      (id : ℕ) (store : EventStore S D)
      → NumberedRows 0 (stream id store.events)
      → get_current_version id store ≡ length (stream id store.events)
  unfolding get_current_version
  get_current_version_lem id store h = omega (arith, max-max_version id 0 store.events h)

  -- On a store with numbered streams `getEvents` returns the stream in the order of insertion.
  pub get_events_lem :
      (id : ℕ) (store : EventStore S D)
      → NumberedRows 0 (stream id store.events)
      → get_events id 0 store ≡ stream id store.events
  unfolding get_events
  get_events_lem id store h =
      rw (select-numbered id 0 0 store.events (omega arith) h)
        (sort_by_version-numbered 0 (stream id store.events) h)

  abbrev pub with_row : EventStore S D → StoredEvent D → EventStore S D
  with_row store row = record store { events = store.events ++ (row ∷ []) }

  pub with_row-IsNumbered :
      (store : EventStore S D) (row : StoredEvent D)
      → IsNumbered store
      → row.version ≡ get_current_version row.aggregate_id store + 1
      → IsNumbered (with_row store row)
  with_row-IsNumbered store row h v id = elim (Bool-cases (row.aggregate_id == id)) [
    | inl mine ↦
        rw (stream-append id store.events row, mine)
          (NumberedRows-append 0 (stream id store.events) row (h id) (
            let same : row.aggregate_id ≡ id = ground arith in
            omega (
              arith,
              v,
              ap (λ (j : ℕ). get_current_version j store) same,
              get_current_version_lem id store (h id),
            )))
    | inr other ↦ rw (stream-append id store.events row, other) (h id)
  ]

  -- How an `append` ends: it throws and leaves the store, or it adds one row of the next version.
  pub append-cases :
      (now : ℕ) (input : AppendEventInput D) (store : EventStore S D)
      → let current = get_current_version input.aggregate_id store in
        ((e : StoreError) × (append now input store ≡ (failed e, store)))
        ⊎ (append now input store ≡ (
          done (row_of now (current + 1) input),
          with_row store (row_of now (current + 1) input),
        ))
  unfolding append
  append-cases now input store =
      let current = get_current_version input.aggregate_id store in
      elim (Bool-cases (version_differs input.expected_version current)) [
        | inl differs ↦
            inl (
              concurrency_conflict (expected_or input.expected_version current) current,
              rw differs,
            )
        | inr agrees ↦ elim (Bool-cases (is_uuid input.event_id)) [
          | inr no_uuid ↦ inl (invalid_uuid, rw (agrees, no_uuid))
          | inl valid ↦ elim (Bool-cases (has_event input.event_id store.events)) [
            | inl taken ↦ inl (duplicate_key, rw (agrees, valid, taken))
            | inr fresh ↦ inr (rw (agrees, valid, fresh))
          ]
        ]
      ]

  -- Whatever is appended, with or without an expected version, the streams stay numbered.
  pub append-IsNumbered :
      (now : ℕ) (input : AppendEventInput D) (store : EventStore S D)
      → IsNumbered store
      → IsNumbered (append now input store).1
  append-IsNumbered now input store h = elim (append-cases now input store) [
    | inl (e, thrown) ↦ rw thrown h
    | inr added ↦ rw added (with_row-IsNumbered store _ h refl)
  ]

  -- The rows that a batch adds, behind the rows that the store had.
  abbrev pub Added : ℕ → EventStore S D → Outcome (List (StoredEvent D)) × EventStore S D → Type 0
  Added n store (done rows, view) =
      IsNumbered view × (view.events ≡ store.events ++ rows) × (length rows ≡ n)
  Added n store (failed e, view) = Unit {0}

  and_then-Added :
      (n : ℕ) (store : EventStore S D) (row : StoredEvent D)
      (p : Outcome (List (StoredEvent D)) × EventStore S D)
      → Added n (with_row store row) p
      → Added (suc n) store (and_then p (λ rows. pure (row ∷ rows)))
  and_then-Added n store row (done rows, view) h =
      (h.0, h.1 ∙ append_assoc store.events (row ∷ []) rows, ap suc h.2)
  and_then-Added n store row (failed e, view) h = tt

  append_all-Added :
      (now : ℕ) (inputs : List (AppendEventInput D)) (store : EventStore S D)
      → IsNumbered store
      → Added (length inputs) store (append_all now inputs store)
  unfolding append_all
  append_all-Added now [] store h = (h, sym (append-nil store.events), refl)
  append_all-Added now (input ∷ inputs) store h = elim (append-cases now input store) [
    | inl (e, thrown) ↦ subst (λ p. Ends p) (sym thrown) tt
    | inr added ↦
        subst (λ p. Ends p) (sym added)
          (and_then-Added (length inputs) store _ _
            (append_all-Added now inputs (with_row store _) (with_row-IsNumbered store _ h refl)))
  ]
    where
      Ends : Outcome (StoredEvent D) × EventStore S D → Type 0
      Ends p =
          Added (suc (length inputs)) store
            (and_then p (λ row v. and_then (append_all now inputs v) (λ rows. pure (row ∷ rows))))

  -- How a batch ends: every row is there and the streams are numbered, or nothing has changed.
  abbrev pub Atomic : ℕ → EventStore S D → Outcome (List (StoredEvent D)) × EventStore S D → Type 0
  Atomic n store (done rows, store') =
      IsNumbered store' × (store'.events ≡ store.events ++ rows) × (length rows ≡ n)
  Atomic n store (failed e, store') = store' ≡ store

  conclude-Atomic :
      (n : ℕ) (store : EventStore S D) (p : Outcome (List (StoredEvent D)) × EventStore S D)
      → Added n store p
      → Atomic n store (conclude store p)
  conclude-Atomic n store (done rows, view) h = h
  conclude-Atomic n store (failed e, view) h = refl

  -- A batch on a store with numbered streams either adds one row for each input behind the rows of
  -- the store and leaves every stream numbered, or throws and leaves the store as it was.
  pub append_batch-Atomic :
      (now : ℕ) (inputs : List (AppendEventInput D)) (store : EventStore S D)
      → IsNumbered store
      → Atomic (length inputs) store (append_batch now inputs store)
  unfolding append_batch
  append_batch-Atomic now inputs store h =
      conclude-Atomic (length inputs) store (append_all now inputs store)
        (append_all-Added now inputs store h)
