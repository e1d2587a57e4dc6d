-- ===== src/EventSourcing/AccountRepository.antt =====
-- `AccountAggregateRepository` (packages/shared/src/event-sourcing/account.repository.ts).
use banking_platform.Base.{ℕ, String, leb, Option, none, some, List, [], ◌∷◌, map, select}
use banking_platform.Base.Int.{ℤ, pos, ◌+ℤ◌, ◌-ℤ◌}
use banking_platform.EventSourcing.Aggregate.{new_aggregate, load_from_history}
use banking_platform.EventSourcing.Account.{
  AccountState, AccountEvent, money_deposited, money_withdrawn, account_created, account_frozen,
  account_unfrozen, unknown, active, Account, when, get_balance,
}
use banking_platform.EventSourcing.Store.{StoredEvent, EventStore, Outcome, get_events}
use banking_platform.EventSourcing.Repository.{to_domain, load, save}

-- The aggregate type `'Account'`.
abbrev pub account_type : ℕ
account_type = 1

abbrev pub AccountStore : Type 0
AccountStore = EventStore AccountState AccountEvent

abbrev pub create_aggregate : ℕ → AccountState → Account
create_aggregate = new_aggregate

-- `getInitialState()` at the time `now`.
abbrev pub get_initial_state : ℕ → AccountState
get_initial_state now = record {
  id = none;
  client_id = none;
  account_number = "";
  balance = pos 0;
  currency = "USD";
  status = active;
  created_at = now;
  updated_at = now;
}

unfoldable pub load_account : ℕ → ℕ → AccountStore → Option Account
unfolding load
load_account now = load when create_aggregate (get_initial_state now)

unfoldable pub save_account :
    ℕ → Account → AccountStore → Outcome (Unit {0}) × Account × AccountStore
unfolding save
save_account = save account_type

abbrev pub balance_of_events : ℕ → ℕ → List (StoredEvent AccountEvent) → Option ℤ
balance_of_events now id [] = none
balance_of_events now id (e ∷ es) = some (
    get_balance (
      load_from_history when (map to_domain (e ∷ es))
        (create_aggregate id (get_initial_state now))))

unfoldable pub get_balance_at : ℕ → ℕ → ℕ → AccountStore → Option ℤ
unfolding get_events load_from_history
get_balance_at now id timestamp store =
    balance_of_events now id (select (λ e. leb e.timestamp timestamp) (get_events id 0 store))

-- One row of `getHistory`.
pub record Entry : Type 0 where
  pub timestamp : ℕ
  pub event_type : String
  pub balance : ℤ
  pub change : ℤ
  pub description : Option String

-- What an event does to `currentBalance`, and the entry that it adds, if any.
abbrev pub running : AccountEvent → ℤ → ℤ
running (account_created _ _ _ _) current = current
running (money_deposited _ amount _ _ _) current = current +ℤ amount
running (money_withdrawn _ amount _ _ _) current = current -ℤ amount
running (account_frozen _ _) current = current
running (account_unfrozen _) current = current
running (unknown _) current = current

abbrev pub push_entry : AccountEvent → ℕ → ℤ → List Entry → List Entry
push_entry (account_created _ _ _ _) t balance rest = rest
push_entry (money_deposited _ amount description _ _) t balance rest =
    record {
      timestamp = t;
      event_type = "MoneyDeposited";
      balance = balance;
      change = amount;
      description = description;
    }
    ∷ rest
push_entry (money_withdrawn _ amount description _ _) t balance rest =
    record {
      timestamp = t;
      event_type = "MoneyWithdrawn";
      balance = balance;
      change = pos 0 -ℤ amount;
      description = description;
    }
    ∷ rest
push_entry (account_frozen _ _) t balance rest = rest
push_entry (account_unfrozen _) t balance rest = rest
push_entry (unknown _) t balance rest = rest

-- The loop of `getHistory`, on the events still to come and `currentBalance`.
unfoldable pub history_from : ℤ → List (StoredEvent AccountEvent) → List Entry
history_from current [] = []
history_from current (e ∷ es) =
    let current' = running e.event_data current in
    push_entry e.event_data e.timestamp current' (history_from current' es)

unfoldable pub get_history : ℕ → AccountStore → List Entry
unfolding history_from get_events
get_history id store = history_from (pos 0) (get_events id 0 store)
