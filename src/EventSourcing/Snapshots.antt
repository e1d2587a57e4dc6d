-- ===== src/EventSourcing/Snapshots.antt =====
-- `AggregateRepository.load` (packages/shared/src/event-sourcing/aggregate.ts, account.repository.ts):
-- the version of an account with a snapshot, and the identity of one without.
use banking_platform.Base.{
  ℕ, ◌≡◌, ◌≢◌, refl, sym, ap, ◌∙◌, subst, none, some, List, [], ◌∷◌, map, arith,
}
use mathlib.Core.Option.{some-injective}
use banking_platform.EventSourcing.Aggregate.{DomainEvent, load_from_history}
use banking_platform.EventSourcing.Account.{AccountState, AccountEvent, Account, when, when_data}
use banking_platform.EventSourcing.Store.{
  StoredEvent, Snapshot, concurrency_conflict, failed, get_events, get_latest_snapshot,
  get_current_version,
}
use banking_platform.EventSourcing.Repository.{to_domain, load_from, load_events}
use banking_platform.EventSourcing.AccountRepository.{
  account_type, AccountStore, create_aggregate, get_initial_state, load_account, save_account,
}
use banking_platform.EventSourcing.Commands.{Command, attempts, attempts-IsTracked, attempts_keep}
use banking_platform.EventSourcing.Persistence.{save-stale}

module _ (now now' id : ℕ) (store : AccountStore) (s : Snapshot AccountState)
    (snapshot : get_latest_snapshot id store ≡ some s)
    (last : get_events id s.version store ≡ []) where
  load-snapshot : load_account now id store ≡ some (create_aggregate id s.state)
  unfolding load_account
  load-snapshot =
      ap (λ o. load_from when create_aggregate (get_initial_state now) o id store) snapshot
      ∙ ap (λ es. some (load_from_history when (map to_domain es) (create_aggregate id s.state)))
          last

  attempts-id : (cs : List Command) → (attempts cs (create_aggregate id s.state)).id ≡ id
  attempts-id cs = attempts_keep (λ b. b.id ≡ id) (λ b b' t h. rw t.same h) cs _ refl

  -- If an account's latest snapshot covers all of its events, `load` returns it at version 0: after
  -- any calls that raise an event, `save` is refused with a conflict and changes nothing, although
  -- nobody else has written.
  pub load-snapshot-save :
      get_current_version id store ≢ 0
      → (cs : List Command) → (attempts cs (create_aggregate id s.state)).uncommitted_events ≢ []
      → (load_account now id store ≡ some (create_aggregate id s.state))
        × (save_account now' (attempts cs (create_aggregate id s.state)) store ≡ (
          failed (concurrency_conflict 0 (get_current_version id store)),
          attempts cs (create_aggregate id s.state),
          store,
        ))
  unfolding save_account
  load-snapshot-save stored cs raised =
      let a = attempts cs (create_aggregate id s.state) in
      (
        load-snapshot,
        subst
            (λ (i : ℕ).
              save_account now' a store
              ≡ (failed (concurrency_conflict 0 (get_current_version i store)), a, store))
            (attempts-id cs)
            (save-stale now' account_type a store 0
              (attempts-IsTracked 0 cs (create_aggregate id s.state)
                (record { counted = omega arith; numbered = tt }))
              (λ e. stored (ap (λ (i : ℕ). get_current_version i store) (sym (attempts-id cs)) ∙ e))
              raised),
      )

-- The fields that no event restores.
abbrev pub Forgets : AccountState → Type 0
Forgets s = (s.client_id ≡ none) × (s.account_number ≡ "") × (s.currency ≡ "USD")

when-Forgets : (d : AccountEvent) (t : ℕ) (s : AccountState) → Forgets s → Forgets (when_data d t s)
when-Forgets (AccountEvent.account_created _ _ _ _) t s h = h
when-Forgets (AccountEvent.money_deposited _ _ _ _ _) t s h = h
when-Forgets (AccountEvent.money_withdrawn _ _ _ _ _) t s h = h
when-Forgets (AccountEvent.account_frozen _ _) t s h = h
when-Forgets (AccountEvent.account_unfrozen _) t s h = h
when-Forgets (AccountEvent.unknown _) t s h = h

load_from_history-Forgets :
    (es : List (DomainEvent AccountEvent)) (a : Account)
    → Forgets a.state
    → Forgets (load_from_history when es a).state
unfolding load_from_history
load_from_history-Forgets [] a h = h
load_from_history-Forgets (e ∷ es) a h =
    load_from_history-Forgets es _ (when-Forgets e.event_data e.timestamp a.state h)

load_events-Forgets :
    (now id : ℕ) (es : List (StoredEvent AccountEvent)) {b : Account}
    → load_events when create_aggregate (get_initial_state now) id es ≡ some b
    → Forgets b.state
load_events-Forgets now id [] h = cc
load_events-Forgets now id (e ∷ es) h =
    subst (λ (b : Account). Forgets b.state) (some-injective _ _ h)
      (load_from_history-Forgets (map to_domain (e ∷ es))
        (create_aggregate id (get_initial_state now)) (refl, refl, refl))

-- Whatever events an account without a snapshot has, `AccountCreated` among them, it is loaded with
-- no client, an empty account number and the currency `USD`.
pub load_account-Forgets :
    (now id : ℕ) (store : AccountStore) {b : Account}
    → get_latest_snapshot id store ≡ none
    → load_account now id store ≡ some b
    → Forgets b.state
unfolding load_account
load_account-Forgets now id store plain found = load_events-Forgets now id (get_events id 0 store) (
    sym (ap (λ o. load_from when create_aggregate (get_initial_state now) o id store) plain)
    ∙ found)
