-- ===== src/EventSourcing/Persistence.antt =====
-- `AggregateRepository.save` (packages/shared/src/event-sourcing/aggregate.ts) and the event store:
-- its optimistic locking, and what the type of the column `event_id` refuses.
use banking_platform.Base.{
  ℕ, ◌+◌, ◌==◌, ◌≡◌, ◌≢◌, refl, ap, ◌∙◌, String, false, List, [], ◌∷◌, ◌++◌, All, All-append, arith,
  if◌then◌else◌,
}
use banking_platform.EventSourcing.Aggregate.{Metadata, Env, DomainEvent, Aggregate}
use banking_platform.EventSourcing.Account.{AccountEvent, Account, create}
use banking_platform.EventSourcing.Store.{
  EventStore, StoreError, concurrency_conflict, invalid_uuid, failed, and_then, is_uuid,
  get_current_version, append,
}
use banking_platform.EventSourcing.Repository.{
  input_of, append_events, conclude_save, save_events, save,
}
use banking_platform.EventSourcing.AccountRepository.{account_type, AccountStore, save_account}
use banking_platform.EventSourcing.Numbering.{Numbered, IsTracked}
use banking_platform.EventSourcing.Commands.{
  Command, attempts, attempts_keep, attempts-IsTracked, create-IsTracked,
}

-- None of the events has a UUID.
abbrev pub Raised : {D : Type 0} → List (DomainEvent D) → Type 0
Raised events = All (λ e. is_uuid e.event_id ≡ false) events

-- Why events that were raised on a version are refused where the store has another or the same.
abbrev pub objection : (base current : ℕ) → StoreError
objection base current = if base == current then invalid_uuid else concurrency_conflict base current

module _ {S D : Type 0} (now aggregate_type : ℕ) where
  -- An event that was raised on another version than the stored one is refused.
  append-stale :
      (id : ℕ) (event : DomainEvent D) (store : EventStore S D) (base : ℕ)
      → event.version ≡ base + 1
      → get_current_version id store ≢ base
      → append now (input_of id aggregate_type event) store
        ≡ (failed (concurrency_conflict base (get_current_version id store)), store)
  unfolding append
  append-stale id event store base v stale = ground arith

  append-Raised :
      (id : ℕ) (event : DomainEvent D) (store : EventStore S D) (base : ℕ)
      → event.version ≡ base + 1
      → is_uuid event.event_id ≡ false
      → append now (input_of id aggregate_type event) store
        ≡ (failed (objection base (get_current_version id store)), store)
  unfolding append
  append-Raised id event store base v raised = ground arith

  -- A stale aggregate with something to save is refused: the first event meets the conflict.
  append_events-stale :
      (id base : ℕ) (events : List (DomainEvent D)) (store : EventStore S D)
      → Numbered base events
      → events ≢ []
      → get_current_version id store ≢ base
      → append_events aggregate_type now id events store
        ≡ (failed (concurrency_conflict base (get_current_version id store)), store)
  unfolding append_events
  append_events-stale id base [] store n some_events stale = absurd (some_events refl)
  append_events-stale id base (e ∷ es) store n some_events stale =
      ap (λ p. and_then p (λ _. append_events aggregate_type now id es))
        (append-stale id e store base n.0 stale)

  append_events-Raised :
      (id base : ℕ) (events : List (DomainEvent D)) (store : EventStore S D)
      → Numbered base events
      → Raised events
      → events ≢ []
      → append_events aggregate_type now id events store
        ≡ (failed (objection base (get_current_version id store)), store)
  unfolding append_events
  append_events-Raised id base [] store n raised some_events = absurd (some_events refl)
  append_events-Raised id base (e ∷ es) store n raised some_events =
      ap (λ p. and_then p (λ _. append_events aggregate_type now id es))
        (append-Raised id e store base n.0 raised.0)

  module _ (a : Aggregate S D) (store : EventStore S D) where
    save_events-append :
        (es : List (DomainEvent D))
        → es ≢ []
        → save_events aggregate_type now es a store
          ≡ conclude_save aggregate_type now a (append_events aggregate_type now a.id es store)
    save_events-append [] k = absurd (k refl)
    save_events-append (e ∷ es) k = refl

    -- Saving an aggregate that was built on another version than the stored one is refused with a
    -- conflict of the two versions, and changes neither the store nor the aggregate.
    pub save-stale :
        (base : ℕ)
        → IsTracked base a
        → get_current_version a.id store ≢ base
        → a.uncommitted_events ≢ []
        → save aggregate_type now a store
          ≡ (failed (concurrency_conflict base (get_current_version a.id store)), a, store)
    unfolding save
    save-stale base t stale some_events =
        save_events-append a.uncommitted_events some_events
        ∙ ap (conclude_save aggregate_type now a)
            (append_events-stale a.id base a.uncommitted_events store t.numbered some_events stale)

    save-Raised :
        (base : ℕ)
        → IsTracked base a
        → Raised a.uncommitted_events
        → a.uncommitted_events ≢ []
        → save aggregate_type now a store
          ≡ (failed (objection base (get_current_version a.id store)), a, store)
    unfolding save
    save-Raised base t raised some_events =
        save_events-append a.uncommitted_events some_events
        ∙ ap (conclude_save aggregate_type now a) (
            append_events-Raised a.id base a.uncommitted_events store t.numbered raised some_events)

-- Facts about an account that was created and then called.
module _ (env : Env) (id client_id : ℕ) (number currency : String) (metadata : Metadata)
    (cs : List Command) where
  abbrev made : Account
  made = attempts cs (create env id client_id number currency metadata)

  append-ne-nil :
      (es : List (DomainEvent AccountEvent)) (e : DomainEvent AccountEvent) → es ++ (e ∷ []) ≢ []
  append-ne-nil [] e h = cc
  append-ne-nil (f ∷ es) e h = cc

  made-uncommitted : made.uncommitted_events ≢ []
  unfolding create
  made-uncommitted =
      attempts_keep (λ b. b.uncommitted_events ≢ [])
        (λ b b' s h. rw s.same (append-ne-nil b.uncommitted_events s.event)) cs
        (create env id client_id number currency metadata) (λ h. cc)

  made-Raised : Raised made.uncommitted_events
  unfolding create
  made-Raised =
      attempts_keep (λ b. Raised b.uncommitted_events)
        (λ b b' s h. rw s.same (
          All-append (λ (e : DomainEvent AccountEvent). is_uuid e.event_id ≡ false)
            b.uncommitted_events (s.event ∷ []) h (s.raised, tt)))
        cs (create env id client_id number currency metadata) (refl, tt)

-- An account that was created and then called in any way is never saved: the identifiers of its
-- events are no UUIDs, so the first insertion is refused, or a conflict is found before it if the
-- store has events of the account already; the store and the account stay as they were.
pub create-attempts-save :
    (env : Env) (id client_id : ℕ) (number currency : String) (metadata : Metadata)
    (cs : List Command) (now : ℕ) (store : AccountStore)
    → let a = attempts cs (create env id client_id number currency metadata) in
      save_account now a store ≡ (
        failed (
            if 0 == get_current_version a.id store
            then invalid_uuid
            else concurrency_conflict 0 (get_current_version a.id store)),
        a,
        store,
      )
unfolding save_account
create-attempts-save env id client_id number currency metadata cs now store =
    save-Raised now account_type (made env id client_id number currency metadata cs) store 0
      (attempts-IsTracked 0 cs (create env id client_id number currency metadata)
        (create-IsTracked env id client_id number currency metadata))
      (made-Raised env id client_id number currency metadata cs)
      (made-uncommitted env id client_id number currency metadata cs)
