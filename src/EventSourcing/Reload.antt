-- ===== src/EventSourcing/Reload.antt =====
-- Loading an account back from its events (packages/shared/src/event-sourcing/aggregate.ts and
-- account.repository.ts): the balance, the status and the version.
use banking_platform.Base.{ℕ, ◌≡◌, refl, sym, ap, ◌∙◌, List, [], ◌∷◌, ◌++◌, map}
use banking_platform.Base.Int.{ℤ}
use banking_platform.EventSourcing.Aggregate.{DomainEvent, load_from_history}
use banking_platform.EventSourcing.Account.{
  AccountState, AccountEvent, Account, Status, active, frozen, when, when_data,
}
use banking_platform.EventSourcing.Commands.{Command, attempts, attempts_keep, Step}

-- What is left of a state when its identity and its times are forgotten.
pub record View : Type 0 where
  pub balance : ℤ
  pub status : Status

abbrev pub view : AccountState → View
view s = record { balance = s.balance; status = s.status }

abbrev pub view_step : AccountEvent → View → View
view_step (AccountEvent.account_created _ _ _ _) v = v
view_step (AccountEvent.money_deposited _ _ _ _ new_balance) v = record v { balance = new_balance }
view_step (AccountEvent.money_withdrawn _ _ _ _ new_balance) v = record v { balance = new_balance }
view_step (AccountEvent.account_frozen _ _) v = record v { status = frozen }
view_step (AccountEvent.account_unfrozen _) v = record v { status = active }
view_step (AccountEvent.unknown _) v = v

view-when :
    (d : AccountEvent) (t : ℕ) (s : AccountState) → view (when_data d t s) ≡ view_step d (view s)
view-when (AccountEvent.account_created _ _ _ _) t s = refl
view-when (AccountEvent.money_deposited _ _ _ _ _) t s = refl
view-when (AccountEvent.money_withdrawn _ _ _ _ _) t s = refl
view-when (AccountEvent.account_frozen _ _) t s = refl
view-when (AccountEvent.account_unfrozen _) t s = refl
view-when (AccountEvent.unknown _) t s = refl

abbrev pub replay : View → List AccountEvent → View
replay v [] = v
replay v (d ∷ ds) = replay (view_step d v) ds

replay-append :
    (v : View) (ds : List AccountEvent) (d : AccountEvent)
    → replay v (ds ++ (d ∷ [])) ≡ view_step d (replay v ds)
replay-append v [] d = refl
replay-append v (e ∷ ds) d = replay-append (view_step e v) ds d

abbrev pub payloads : List (DomainEvent AccountEvent) → List AccountEvent
payloads = map (λ e. e.event_data)

payloads-append :
    (es : List (DomainEvent AccountEvent)) (e : DomainEvent AccountEvent)
    → payloads (es ++ (e ∷ [])) ≡ payloads es ++ (e.event_data ∷ [])
payloads-append [] e = refl
payloads-append (f ∷ es) e = ap (λ ds. f.event_data ∷ ds) (payloads-append es e)

-- `loadFromHistory` as a replay.
pub view-load_from_history :
    (es : List (DomainEvent AccountEvent)) (a : Account)
    → view (load_from_history when es a).state ≡ replay (view a.state) (payloads es)
unfolding load_from_history
view-load_from_history [] a = refl
view-load_from_history (e ∷ es) a =
    view-load_from_history es _
    ∙ ap (λ v. replay v (payloads es)) (view-when e.event_data e.timestamp a.state)

-- Every call keeps the state equal to the replay of the uncommitted events.
abbrev pub IsReplayed : View → Account → Type 0
IsReplayed start a = view a.state ≡ replay start (payloads a.uncommitted_events)

Step-IsReplayed :
    (start : View) (a a' : Account) → Step a a' → IsReplayed start a → IsReplayed start a'
Step-IsReplayed start a a' s h = rw s.same (
    view-when s.event.event_data s.event.timestamp a.state
    ∙ ap (view_step s.event.event_data) h
    ∙ sym (
        ap (replay start) (payloads-append a.uncommitted_events s.event)
        ∙ replay-append start (payloads a.uncommitted_events) s.event.event_data))

pub attempts-IsReplayed :
    (start : View) (cs : List Command) (a : Account)
    → IsReplayed start a
    → IsReplayed start (attempts cs a)
attempts-IsReplayed start cs a h = attempts_keep (IsReplayed start) (Step-IsReplayed start) cs a h
