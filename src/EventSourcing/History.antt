-- ===== src/EventSourcing/History.antt =====
-- The temporal queries `getBalanceAt` and `getHistory` (packages/shared/src/event-sourcing/
-- account.repository.ts).
use banking_platform.Base.{
  ℕ, ◌+◌, ◌<◌, ◌≡◌, refl, sym, ap, ◌∙◌, ◌==◌, leb, List, [], ◌∷◌, ◌++◌, select, select-append,
  append-nil, arith, inl, inr, Bool-cases,
}
use banking_platform.Base.Int.{ℤ, pos, ◌+ℤ◌, int_laws}
use banking_platform.EventSourcing.Account.{AccountEvent}
use banking_platform.EventSourcing.Store.{
  StoredEvent, AppendEventInput, Outcome, append, get_events, get_current_version, row_of,
}
use banking_platform.EventSourcing.AccountRepository.{
  AccountStore, Entry, running, push_entry, history_from, get_history, get_balance_at,
  balance_of_events,
}
use banking_platform.EventSourcing.Streams.{
  IsNumbered, stream, stream-append, with_row, with_row-IsNumbered, get_events_lem, append-cases,
}

-- Entries whose balances run on from `b` by their changes.
abbrev pub RunsFrom : ℤ → List Entry → Type 0
RunsFrom b [] = Unit {0}
RunsFrom b (e ∷ es) = (e.balance ≡ b +ℤ e.change) × RunsFrom e.balance es

push_entry-RunsFrom :
    (b : ℤ) (d : AccountEvent) (t : ℕ) (rest : List Entry)
    → RunsFrom (running d b) rest
    → RunsFrom b (push_entry d t (running d b) rest)
push_entry-RunsFrom b (AccountEvent.account_created _ _ _ _) t rest h = h
push_entry-RunsFrom b (AccountEvent.money_deposited _ amount _ _ _) t rest h = (refl, h)
push_entry-RunsFrom b (AccountEvent.money_withdrawn _ amount _ _ _) t rest h = (omega int_laws, h)
push_entry-RunsFrom b (AccountEvent.account_frozen _ _) t rest h = h
push_entry-RunsFrom b (AccountEvent.account_unfrozen _) t rest h = h
push_entry-RunsFrom b (AccountEvent.unknown _) t rest h = h

history_from-RunsFrom :
    (b : ℤ) (es : List (StoredEvent AccountEvent)) → RunsFrom b (history_from b es)
unfolding history_from
history_from-RunsFrom b [] = tt
history_from-RunsFrom b (e ∷ es) =
    push_entry-RunsFrom b e.event_data e.timestamp _
      (history_from-RunsFrom (running e.event_data b) es)

-- The last balance that a history shows, `b` if it is empty.
abbrev pub last_balance : ℤ → List Entry → ℤ
last_balance b [] = b
last_balance b (e ∷ es) = last_balance e.balance es

-- The sum of the changes.
abbrev pub total_change : List Entry → ℤ
total_change [] = pos 0
total_change (e ∷ es) = e.change +ℤ total_change es

last_balance-RunsFrom :
    (b : ℤ) (es : List Entry) → RunsFrom b es → last_balance b es ≡ b +ℤ total_change es
last_balance-RunsFrom b [] h = omega int_laws
last_balance-RunsFrom b (e ∷ es) h =
    last_balance-RunsFrom e.balance es h.1
    ∙ ap (λ (x : ℤ). x +ℤ total_change es) h.0
    ∙ omega int_laws

-- The history of any account is a running balance from 0: each entry's balance is the one before it
-- plus its change, and the last one is the sum of all changes.
get_history-RunsFrom :
    (id : ℕ) (store : AccountStore)
    → RunsFrom (pos 0) (get_history id store)
      × (last_balance (pos 0) (get_history id store) ≡ total_change (get_history id store))
unfolding get_history
get_history-RunsFrom id store =
    let h = history_from-RunsFrom (pos 0) (get_events id 0 store) in
    (h, last_balance-RunsFrom (pos 0) _ h ∙ omega int_laws)

-- What is appended later leaves the events until `timestamp` as they were.
module _ (now timestamp : ℕ) (later : timestamp < now) (id : ℕ) where
  abbrev until : List (StoredEvent AccountEvent) → List (StoredEvent AccountEvent)
  until = select (λ e. leb e.timestamp timestamp)

  until-append :
      (es : List (StoredEvent AccountEvent)) (row : StoredEvent AccountEvent)
      → row.timestamp ≡ now
      → until (es ++ (row ∷ [])) ≡ until es
  until-append es row t =
      select-append (λ e. leb e.timestamp timestamp) es (row ∷ [])
      ∙ ap (λ rs. until es ++ rs) (dropped row t)
      ∙ append-nil (until es)
    where
      dropped : (r : StoredEvent AccountEvent) → r.timestamp ≡ now → until (r ∷ []) ≡ []
      dropped r e = ground arith

  until-stream :
      (es : List (StoredEvent AccountEvent)) (row : StoredEvent AccountEvent)
      → row.timestamp ≡ now
      → until (stream id (es ++ (row ∷ []))) ≡ until (stream id es)
  until-stream es row t = elim (Bool-cases (row.aggregate_id == id)) [
    | inl mine ↦ rw (stream-append id es row, mine) (until-append (stream id es) row t)
    | inr other ↦ rw (stream-append id es row, other)
  ]

  -- The balance at a time does not change by what is appended after it, for this account or
  -- another, on a store with numbered streams.
  pub get_balance_at-append :
      (input : AppendEventInput AccountEvent) (store : AccountStore) (t : ℕ)
      → IsNumbered store
      → get_balance_at t id timestamp (append now input store).1
        ≡ get_balance_at t id timestamp store
  unfolding get_balance_at
  get_balance_at-append input store t h = elim (append-cases now input store) [
    | inl (e, thrown) ↦ rw thrown
    | inr added ↦
        let row = row_of now (get_current_version input.aggregate_id store + 1) input in
        ap
          (λ (p : Outcome (StoredEvent AccountEvent) × AccountStore).
            get_balance_at t id timestamp p.1)
          added
        ∙ ap (λ es. balance_of_events t id (until es))
            (get_events_lem id (with_row store row) (with_row-IsNumbered store row h refl id))
        ∙ ap (balance_of_events t id) (until-stream store.events row refl)
        ∙ sym (ap (λ es. balance_of_events t id (until es)) (get_events_lem id store (h id)))
  ]
