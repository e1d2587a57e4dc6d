-- ===== src/Tests/EventSourcingRuns.antt =====
-- Event sourcing (packages/shared/src/event-sourcing) with one account: created, 100 in, 30 out.
use banking_platform.Base.{ℕ, ◌≡◌, refl, none, List, [], ◌∷◌, arith}
use banking_platform.Base.Int.{pos, ◌+ℤ◌, ◌-ℤ◌, ◌≤ℤ◌}
use banking_platform.EventSourcing.Aggregate.{
  Metadata, Env, uuid, apply_event, raise_event, load_from_history,
}
use banking_platform.EventSourcing.Account.{
  AccountState, AccountEvent, Account, when, create, deposit, withdraw, get_balance,
}
use banking_platform.EventSourcing.Store.{
  Snapshot, AppendEventInput, concurrency_conflict, invalid_uuid, failed, append, append_batch,
  get_current_version, empty_store,
}
use banking_platform.EventSourcing.Repository.{append_events, save}
use banking_platform.EventSourcing.AccountRepository.{
  AccountStore, create_aggregate, get_initial_state, save_account, get_balance_at,
}
use banking_platform.EventSourcing.Numbering.{IsTracked}
use banking_platform.EventSourcing.Commands.{
  Command, deposit_of, withdraw_of, execute, attempts, tally, attempts_nonneg,
  create-attempts-tally,
}
use banking_platform.EventSourcing.Streams.{
  IsNumbered, Atomic, append-IsNumbered, append_batch-Atomic,
}
use banking_platform.EventSourcing.Persistence.{create-attempts-save, save-stale}
use banking_platform.EventSourcing.RoundTrip.{create-attempts-replay}
use banking_platform.EventSourcing.History.{get_balance_at-append}

abbrev env : ℕ → Env
env id = record { event_id = id; now = 10 }

abbrev plain : Metadata
plain = record { correlation_id = none; causation_id = none; user_id = none }

abbrev created : Account
created = create (env 1) 1 9 "191-0000000001" "PEN" plain

abbrev calls : List Command
calls =
    deposit_of (env 2) (pos 100) none plain
    ∷ withdraw_of (env 3) (pos 30) none plain
    ∷ withdraw_of (env 4) (pos 90) none plain
    ∷ []

abbrev called : Account
called = attempts calls created

abbrev store : AccountStore
store = empty_store

-- The third call is refused.
called_balance : get_balance called ≡ pos 70
unfolding attempts execute create deposit withdraw raise_event apply_event ◌+ℤ◌ ◌-ℤ◌
called_balance = refl

attempts_nonneg_example : pos 0 ≤ℤ called.state.balance
unfolding create raise_event apply_event
attempts_nonneg_example = attempts_nonneg calls created (omega arith)

create-attempts-tally_example : tally (pos 0) called.uncommitted_events ≡ get_balance called
create-attempts-tally_example = create-attempts-tally (env 1) 1 9 "191-0000000001" "PEN" plain calls

create-attempts-replay_example :
    let b =
      load_from_history when called.uncommitted_events
        (create_aggregate 1 (get_initial_state 11)) in
    (b.state.balance ≡ called.state.balance)
    × (b.state.status ≡ called.state.status)
    × (b.version ≡ called.version)
    × (b.uncommitted_events ≡ [])
create-attempts-replay_example =
    create-attempts-replay (env 1) 1 9 "191-0000000001" "PEN" plain calls 11

create-attempts-save_example : save_account 10 called store ≡ (failed invalid_uuid, called, store)
unfolding attempts execute create deposit withdraw raise_event apply_event get_current_version ◌+ℤ◌
    ◌-ℤ◌
create-attempts-save_example =
    create-attempts-save (env 1) 1 9 "191-0000000001" "PEN" plain calls 10 store

-- The event of the creation alone.
created-IsTracked : IsTracked 0 created
unfolding create raise_event apply_event
created-IsTracked = record { counted = refl; numbered = (refl, tt) }

abbrev input : ℕ → AppendEventInput AccountEvent
input event_id = record {
  event_id = uuid event_id;
  aggregate_id = 1;
  aggregate_type = 1;
  event_data = AccountEvent.money_deposited 1 (pos 100) none (pos 0) (pos 100);
  expected_version = none;
  metadata = plain;
}

-- A store that has an event of the account already.
abbrev with_creation : AccountStore
with_creation = (append 10 (input 1) store).1

save-stale_example : save 1 12 created with_creation ≡ (
  failed (concurrency_conflict 0 (get_current_version 1 with_creation)),
  created,
  with_creation,
)
unfolding create raise_event apply_event get_current_version save append_events append
save-stale_example =
    save-stale 12 1 created with_creation 0 created-IsTracked (λ e. omega arith) (λ e. cc)

append-IsNumbered_example : IsNumbered (append 10 (input 1) store).1
append-IsNumbered_example = append-IsNumbered 10 (input 1) store (λ id. tt)

abbrev one_event : AccountStore
one_event = (append 10 (input 1) store).1

one_event-IsNumbered : IsNumbered one_event
one_event-IsNumbered = append-IsNumbered 10 (input 1) store (λ id. tt)

append_batch-Atomic_example :
    Atomic 2 one_event (append_batch 11 (input 2 ∷ input 1 ∷ []) one_event)
append_batch-Atomic_example =
    append_batch-Atomic 11 (input 2 ∷ input 1 ∷ []) one_event one_event-IsNumbered

get_balance_at-append_example :
    get_balance_at 99 1 10 (append 11 (input 2) one_event).1 ≡ get_balance_at 99 1 10 one_event
get_balance_at-append_example =
    get_balance_at-append 11 10 (omega arith) 1 (input 2) one_event 99 one_event-IsNumbered

abbrev reloaded : Account
reloaded = record {
  id = 1;
  state = record (get_initial_state 12) { balance = pos 100; updated_at = 10 };
  version = 1;
  uncommitted_events = [];
}

abbrev snapshot : Snapshot AccountState
snapshot = record {
  aggregate_id = 1;
  aggregate_type = 1;
  version = 1;
  state = created.state;
  created_at = 10;
}

abbrev snapshot_store : AccountStore
snapshot_store = record one_event { snapshots = snapshot ∷ [] }

abbrev later_calls : List Command
later_calls = deposit_of (env 5) (pos 10) none plain ∷ []
