-- ===== src/EventSourcing/Queries.antt =====
-- The queries over all aggregates of `EventStoreRepository`
-- (packages/shared/src/event-sourcing/event-store.repository.ts). `type_of` is the column
-- `event_type`, which is the constructor of the data.
use banking_platform.Base.{
  ℕ, zero, suc, ◌+◌, ◌==◌, leb, ◌≡◌, refl, ◌∙◌, Bool, true, ◌&&◌, Option, none, some, List, [], ◌∷◌,
  select, length, take, if◌then◌else◌, arith,
}
use banking_platform.EventSourcing.Store.{StoredEvent, EventStore}

abbrev pub skip : {A : Type 0} → ℕ → List A → List A
skip zero xs = xs
skip (suc n) [] = []
skip (suc n) (x ∷ xs) = skip n xs

module _ {D : Type 0} where
  -- `ORDER BY timestamp ASC` and `DESC`.
  abbrev pub insert_oldest : StoredEvent D → List (StoredEvent D) → List (StoredEvent D)
  insert_oldest e [] = e ∷ []
  insert_oldest e (f ∷ fs) =
      let rest = insert_oldest e fs in if leb e.timestamp f.timestamp then e ∷ f ∷ fs else f ∷ rest

  abbrev pub oldest_first : List (StoredEvent D) → List (StoredEvent D)
  oldest_first [] = []
  oldest_first (e ∷ es) = insert_oldest e (oldest_first es)

  abbrev pub insert_newest : StoredEvent D → List (StoredEvent D) → List (StoredEvent D)
  insert_newest e [] = e ∷ []
  insert_newest e (f ∷ fs) =
      let rest = insert_newest e fs in if leb f.timestamp e.timestamp then e ∷ f ∷ fs else f ∷ rest

  abbrev pub newest_first : List (StoredEvent D) → List (StoredEvent D)
  newest_first [] = []
  newest_first (e ∷ es) = insert_newest e (newest_first es)

-- `Record<string, number>` from the rows of a `GROUP BY`; the order of the rows does not matter.
abbrev pub count_in : ℕ → List (ℕ × ℕ) → List (ℕ × ℕ)
count_in key [] = (key, 1) ∷ []
count_in key ((k, n) ∷ rest) =
    let later = count_in key rest in if k == key then (k, n + 1) ∷ rest else (k, n) ∷ later

abbrev pub count_by : {A : Type 0} → (A → ℕ) → List A → List (ℕ × ℕ)
count_by f [] = []
count_by f (x ∷ xs) = count_in (f x) (count_by f xs)

abbrev pub sum_counts : List (ℕ × ℕ) → ℕ
sum_counts [] = 0
sum_counts ((k, n) ∷ rest) = n + sum_counts rest

abbrev pub earlier : ℕ → Option ℕ → Option ℕ
earlier t none = some t
earlier t (some u) = some (if leb t u then t else u)

abbrev pub later : ℕ → Option ℕ → Option ℕ
later t none = some t
later t (some u) = some (if leb u t then t else u)

abbrev pub oldest : {D : Type 0} → List (StoredEvent D) → Option ℕ
oldest [] = none
oldest (e ∷ es) = earlier e.timestamp (oldest es)

abbrev pub newest : {D : Type 0} → List (StoredEvent D) → Option ℕ
newest [] = none
newest (e ∷ es) = later e.timestamp (newest es)

pub record StoreStats : Type 0 where
  pub total_events : ℕ
  pub events_by_type : List (ℕ × ℕ)
  pub events_by_aggregate : List (ℕ × ℕ)
  pub oldest_event : Option ℕ
  pub newest_event : Option ℕ

abbrev pub of_type : {D : Type 0} → Option ℕ → StoredEvent D → Bool
of_type none e = true
of_type (some aggregate_type) e = e.aggregate_type == aggregate_type

module _ {S D : Type 0} (type_of : D → ℕ) where
  unfoldable pub get_events_by_type : ℕ → (limit offset : ℕ) → EventStore S D → List (StoredEvent D)
  get_events_by_type event_type limit offset store =
      take limit
        (skip offset (newest_first (select (λ e. type_of e.event_data == event_type) store.events)))

  unfoldable pub get_events_by_time_range :
      (from to : ℕ) → Option ℕ → EventStore S D → List (StoredEvent D)
  get_events_by_time_range from to aggregate_type store = oldest_first (
      select (λ e. leb from e.timestamp && leb e.timestamp to && of_type aggregate_type e)
        store.events)

  unfoldable pub get_stats : EventStore S D → StoreStats
  get_stats store = record {
    total_events = length store.events;
    events_by_type = count_by (λ e. type_of e.event_data) store.events;
    events_by_aggregate = count_by (λ e. e.aggregate_type) store.events;
    oldest_event = oldest store.events;
    newest_event = newest store.events;
  }

sum-count_in :
    (key : ℕ) (counts : List (ℕ × ℕ)) → sum_counts (count_in key counts) ≡ sum_counts counts + 1
sum-count_in key [] = refl
sum-count_in key ((k, n) ∷ rest) = ground (arith, sum-count_in key rest)

sum-count_by : {A : Type 0} (f : A → ℕ) (xs : List A) → sum_counts (count_by f xs) ≡ length xs
sum-count_by f [] = refl
sum-count_by f (x ∷ xs) = sum-count_in (f x) (count_by f xs) ∙ omega (arith, sum-count_by f xs)

-- The statistics count each event once, by its type as well as by its aggregate's type.
pub get_stats-total :
    {S D : Type 0} (type_of : D → ℕ) (store : EventStore S D)
    → (sum_counts (get_stats type_of store).events_by_type ≡ (get_stats type_of store).total_events)
      × (sum_counts (get_stats type_of store).events_by_aggregate
          ≡ (get_stats type_of store).total_events)
unfolding get_stats
get_stats-total type_of store = (
  sum-count_by (λ e. type_of e.event_data) store.events,
  sum-count_by (λ e. e.aggregate_type) store.events,
)
