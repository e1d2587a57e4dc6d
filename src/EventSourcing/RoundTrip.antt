-- ===== src/EventSourcing/RoundTrip.antt =====
-- Replaying the events that an account raised (packages/shared/src/event-sourcing/aggregate.ts and
-- account.repository.ts).
use banking_platform.Base.{ℕ, ◌+◌, ◌≡◌, refl, sym, ap, ◌∙◌, String, List, [], ◌∷◌, length, arith}
use banking_platform.Base.Int.{pos}
use banking_platform.EventSourcing.Aggregate.{Metadata, Env, DomainEvent, load_from_history}
use banking_platform.EventSourcing.Account.{AccountEvent, Account, active, when, create}
use banking_platform.EventSourcing.AccountRepository.{create_aggregate, get_initial_state}
use banking_platform.EventSourcing.Numbering.{Numbered}
use banking_platform.EventSourcing.Commands.{
  Command, attempts, attempts-IsTracked, create-IsTracked,
}
use banking_platform.EventSourcing.Reload.{View, view-load_from_history, attempts-IsReplayed}

-- `loadFromHistory` ends at the version of the last event.
version-load_from_history :
    (base : ℕ) (es : List (DomainEvent AccountEvent)) (a : Account)
    → a.version ≡ base
    → Numbered base es
    → (load_from_history when es a).version ≡ base + length es
unfolding load_from_history
version-load_from_history base [] a v n = omega arith
version-load_from_history base (e ∷ es) a v n =
    let rest =
      version-load_from_history (base + 1) es
        (record a { state = when e a.state; version = e.version }) n.0 n.1 in
    omega (arith, rest)

uncommitted-load_from_history :
    (es : List (DomainEvent AccountEvent)) (a : Account)
    → (load_from_history when es a).uncommitted_events ≡ a.uncommitted_events
unfolding load_from_history
uncommitted-load_from_history [] a = refl
uncommitted-load_from_history (e ∷ es) a = uncommitted-load_from_history es _

-- The events that an account raised, from its creation on through any calls, replayed by
-- `loadFromHistory` on a new account in the initial state, give back its balance, its status and its
-- version, and leave nothing uncommitted.
pub create-attempts-replay :
    (env : Env) (id client_id : ℕ) (number currency : String) (metadata : Metadata)
    (cs : List Command) (now : ℕ)
    → let a = attempts cs (create env id client_id number currency metadata) in
      let b =
        load_from_history when a.uncommitted_events (create_aggregate id (get_initial_state now)) in
      (b.state.balance ≡ a.state.balance)
      × (b.state.status ≡ a.state.status)
      × (b.version ≡ a.version)
      × (b.uncommitted_events ≡ [])
unfolding create
create-attempts-replay env id client_id number currency metadata cs now =
    let start = create env id client_id number currency metadata in
    let a = attempts cs start in
    let empty = create_aggregate id (get_initial_state now) in
    let tracked =
      attempts-IsTracked 0 cs start (create-IsTracked env id client_id number currency metadata) in
    let seen =
      view-load_from_history a.uncommitted_events empty
      ∙ sym (attempts-IsReplayed (record { balance = pos 0; status = active }) cs start refl) in
    (
      ap (λ (v : View). v.balance) seen,
      ap (λ (v : View). v.status) seen,
      version-load_from_history 0 a.uncommitted_events empty refl tracked.numbered
          ∙ sym tracked.counted,
      uncommitted-load_from_history a.uncommitted_events empty,
    )
