-- ===== src/EventSourcing/Account.antt =====
-- `AccountAggregate` (packages/shared/src/event-sourcing/account.aggregate.ts). Amounts are whole
-- cents; a thrown `Error` is an `AccountError`, whose constructor stands for the message.
use banking_platform.Base.{ℕ, String, Bool, true, false, Option, some, if◌then◌else◌}
use banking_platform.Base.Int.{ℤ, pos, ◌+ℤ◌, ◌-ℤ◌, ltb_ℤ, leb_ℤ}
use banking_platform.EventSourcing.Aggregate.{
  Metadata, DomainEvent, Env, Aggregate, new_aggregate, raise_event,
}

pub data Status : Type 0 where
  active frozen closed : Status

-- `AccountState`. An identifier that may be `''` is an `Option`.
pub record AccountState : Type 0 where
  pub id : Option ℕ
  pub client_id : Option ℕ
  pub account_number : String
  pub balance : ℤ
  pub currency : String
  pub status : Status
  pub created_at : ℕ
  pub updated_at : ℕ

-- `eventType` with its `eventData`; `unknown` is any other event type.
pub data AccountEvent : Type 0 where
  account_created : (account_id client_id : ℕ) (account_number currency : String) → AccountEvent
  money_deposited money_withdrawn :
      (account_id : ℕ) (amount : ℤ) (description : Option String) (previous_balance new_balance : ℤ)
      → AccountEvent
  account_frozen : (account_id : ℕ) (reason : String) → AccountEvent
  account_unfrozen : (account_id : ℕ) → AccountEvent
  unknown : (event_type : String) → AccountEvent

pub data AccountError : Type 0 where
  amount_not_positive insufficient_funds already_frozen freeze_closed not_frozen : AccountError
  cannot_deposit cannot_withdraw : Status → AccountError

pub data Result {ℓ} (A : Type ℓ) : Type ℓ where
  ok : A → Result A
  err : AccountError → Result A

abbrev pub Account : Type 0
Account = Aggregate AccountState AccountEvent

abbrev pub is_active : Status → Bool
is_active active = true
is_active frozen = false
is_active closed = false

-- The `switch` of `when`, with the event's timestamp.
abbrev pub when_data : AccountEvent → ℕ → AccountState → AccountState
when_data (account_created _ _ _ _) t s = record s { created_at = t; updated_at = t }
when_data (money_deposited _ _ _ _ new_balance) t s = record s {
  balance = new_balance;
  updated_at = t;
}
when_data (money_withdrawn _ _ _ _ new_balance) t s = record s {
  balance = new_balance;
  updated_at = t;
}
when_data (account_frozen _ _) t s = record s { status = frozen; updated_at = t }
when_data (account_unfrozen _) t s = record s { status = active; updated_at = t }
when_data (unknown _) t s = s

abbrev pub when : DomainEvent AccountEvent → AccountState → AccountState
when event s = when_data event.event_data event.timestamp s

-- The account that `create` starts from, before it raises its event.
abbrev pub blank : ℕ → ℕ → String → String → ℕ → Account
blank id client_id account_number currency now = new_aggregate id (record {
  id = some id;
  client_id = some client_id;
  account_number = account_number;
  balance = pos 0;
  currency = currency;
  status = active;
  created_at = now;
  updated_at = now;
})

unfoldable pub create : Env → ℕ → ℕ → String → String → Metadata → Account
unfolding raise_event
create env id client_id account_number currency metadata =
    raise_event when env (account_created id client_id account_number currency) metadata
      (blank id client_id account_number currency env.now)

unfoldable pub deposit : Env → ℤ → Option String → Metadata → Account → Result Account
unfolding raise_event
deposit env amount description metadata a =
    let s = a.state in
    if leb_ℤ amount (pos 0)
    then err amount_not_positive
    else if is_active s.status
    then ok (
        raise_event when env
          (money_deposited a.id amount description s.balance (s.balance +ℤ amount)) metadata a)
    else err (cannot_deposit s.status)

unfoldable pub withdraw : Env → ℤ → Option String → Metadata → Account → Result Account
unfolding raise_event
withdraw env amount description metadata a =
    let s = a.state in
    if leb_ℤ amount (pos 0)
    then err amount_not_positive
    else if is_active s.status
    then (if ltb_ℤ s.balance amount
        then err insufficient_funds
        else ok (
            raise_event when env
              (money_withdrawn a.id amount description s.balance (s.balance -ℤ amount)) metadata a))
    else err (cannot_withdraw s.status)

-- `freeze` and `unfreeze` by the status that they test.
abbrev pub freeze_from : Status → Env → String → Metadata → Account → Result Account
freeze_from active env reason metadata a =
    ok (raise_event when env (account_frozen a.id reason) metadata a)
freeze_from frozen env reason metadata a = err already_frozen
freeze_from closed env reason metadata a = err freeze_closed

unfoldable pub freeze : Env → String → Metadata → Account → Result Account
unfolding raise_event
freeze env reason metadata a = freeze_from a.state.status env reason metadata a

abbrev pub unfreeze_from : Status → Env → Metadata → Account → Result Account
unfreeze_from active env metadata a = err not_frozen
unfreeze_from frozen env metadata a = ok (raise_event when env (account_unfrozen a.id) metadata a)
unfreeze_from closed env metadata a = err not_frozen

unfoldable pub unfreeze : Env → Metadata → Account → Result Account
unfolding raise_event
unfreeze env metadata a = unfreeze_from a.state.status env metadata a

abbrev pub get_balance : Account → ℤ
get_balance a = a.state.balance
