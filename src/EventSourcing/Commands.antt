-- ===== src/EventSourcing/Commands.antt =====
-- Sequences of calls on an `AccountAggregate` (packages/shared/src/event-sourcing/
-- account.aggregate.ts): a call that throws leaves the object as it was. The numbering of the
-- uncommitted events, the balance, and the amounts in the events.
use banking_platform.Base.{
  ℕ, ◌+◌, String, ◌≡◌, refl, false, Option, List, [], ◌∷◌, ◌++◌, length-append, ap, ◌∙◌, arith,
}
use banking_platform.Base.Int.{ℤ, pos, ◌+ℤ◌, ◌-ℤ◌, ◌≤ℤ◌, int_laws}
use banking_platform.EventSourcing.Aggregate.{Metadata, DomainEvent, Env, generated, raise_event}
use banking_platform.EventSourcing.Store.{is_uuid}
use banking_platform.EventSourcing.Account.{
  AccountEvent, Account, Status, active, frozen, closed, Result, ok, err, when, create, deposit,
  withdraw, freeze, freeze_from, unfreeze, unfreeze_from, get_balance,
}
use banking_platform.EventSourcing.AccountRepository.{running}
use banking_platform.EventSourcing.Numbering.{IsTracked, Numbered-append}

pub data Command : Type 0 where
  deposit_of withdraw_of : Env → ℤ → Option String → Metadata → Command
  freeze_of : Env → String → Metadata → Command
  unfreeze_of : Env → Metadata → Command

unfoldable pub execute : Command → Account → Result Account
unfolding deposit withdraw freeze unfreeze
execute (deposit_of env amount description metadata) a = deposit env amount description metadata a
execute (withdraw_of env amount description metadata) a = withdraw env amount description metadata a
execute (freeze_of env reason metadata) a = freeze env reason metadata a
execute (unfreeze_of env metadata) a = unfreeze env metadata a

abbrev pub settle : Result Account → Account → Account
settle (ok a') a = a'
settle (err _) a = a

-- A sequence of calls whose exceptions the caller catches.
unfoldable pub attempts : List Command → Account → Account
unfolding execute
attempts [] a = a
attempts (c ∷ cs) a = attempts cs (settle (execute c a) a)

-- One successful call, as the event that it raised.
pub record Step (a a' : Account) : Type 0 where
  pub event : DomainEvent AccountEvent
  pub same : a' ≡ record {
    id = a.id;
    state = when event a.state;
    version = a.version + 1;
    uncommitted_events = a.uncommitted_events ++ (event ∷ []);
  }
  pub raised : is_uuid event.event_id ≡ false
  pub next_version : event.version ≡ a.version + 1
  pub agrees : running event.event_data a.state.balance ≡ a'.state.balance
  pub covered : pos 0 ≤ℤ a.state.balance → pos 0 ≤ℤ a'.state.balance

abbrev event_at : Env → AccountEvent → Metadata → Account → DomainEvent AccountEvent
event_at env d metadata a = record {
  event_id = generated env.event_id;
  event_data = d;
  version = a.version + 1;
  timestamp = env.now;
  metadata = metadata;
}

deposit-Step :
    (env : Env) (amount : ℤ) (description : Option String) (metadata : Metadata) (a : Account)
    {a' : Account}
    → deposit env amount description metadata a ≡ ok a'
    → Step a a'
unfolding deposit
deposit-Step env amount description metadata a {a'} h = record {
  event =
      event_at env
        (AccountEvent.money_deposited a.id amount description a.state.balance
          (a.state.balance +ℤ amount))
        metadata a;
  same = ground arith;
  raised = refl;
  next_version = refl;
  agrees = ground arith;
  covered = λ p. grind (int_laws);
}

withdraw-Step :
    (env : Env) (amount : ℤ) (description : Option String) (metadata : Metadata) (a : Account)
    {a' : Account}
    → withdraw env amount description metadata a ≡ ok a'
    → Step a a'
unfolding withdraw
withdraw-Step env amount description metadata a {a'} h = record {
  event =
      event_at env
        (AccountEvent.money_withdrawn a.id amount description a.state.balance
          (a.state.balance -ℤ amount))
        metadata a;
  same = ground arith;
  raised = refl;
  next_version = refl;
  agrees = ground arith;
  covered = λ p. grind (int_laws);
}

freeze_from-Step :
    (s : Status) (env : Env) (reason : String) (metadata : Metadata) (a : Account) {a' : Account}
    → freeze_from s env reason metadata a ≡ ok a'
    → Step a a'
unfolding raise_event
freeze_from-Step active env reason metadata a h = record {
  event = event_at env (AccountEvent.account_frozen a.id reason) metadata a;
  same = ground arith;
  raised = refl;
  next_version = refl;
  agrees = ground arith;
  covered = λ p. ground arith;
}
freeze_from-Step frozen env reason metadata a h = cc
freeze_from-Step closed env reason metadata a h = cc

unfreeze_from-Step :
    (s : Status) (env : Env) (metadata : Metadata) (a : Account) {a' : Account}
    → unfreeze_from s env metadata a ≡ ok a'
    → Step a a'
unfolding raise_event
unfreeze_from-Step active env metadata a h = cc
unfreeze_from-Step frozen env metadata a h = record {
  event = event_at env (AccountEvent.account_unfrozen a.id) metadata a;
  same = ground arith;
  raised = refl;
  next_version = refl;
  agrees = ground arith;
  covered = λ p. ground arith;
}
unfreeze_from-Step closed env metadata a h = cc

execute-Step : (c : Command) (a : Account) {a' : Account} → execute c a ≡ ok a' → Step a a'
unfolding execute
execute-Step (deposit_of env amount description metadata) a h =
    deposit-Step env amount description metadata a h
execute-Step (withdraw_of env amount description metadata) a h =
    withdraw-Step env amount description metadata a h
execute-Step (freeze_of env reason metadata) a h =
    freeze_from-Step a.state.status env reason metadata a h
execute-Step (unfreeze_of env metadata) a h = unfreeze_from-Step a.state.status env metadata a h

-- What every successful call keeps, every sequence of calls keeps.
module _ {κ} (P : Account → Type κ) (keep : (a a' : Account) → Step a a' → P a → P a') where
  settle_keeps : (c : Command) (a : Account) → P a → P (settle (execute c a) a)
  settle_keeps c a h = go (execute c a) refl
    where
      go : (r : Result Account) → execute c a ≡ r → P (settle r a)
      go (ok a') e = keep a a' (execute-Step c a e) h
      go (err _) e = h

  pub attempts_keep : (cs : List Command) (a : Account) → P a → P (attempts cs a)
  unfolding attempts
  attempts_keep [] a h = h
  attempts_keep (c ∷ cs) a h = attempts_keep cs (settle (execute c a) a) (settle_keeps c a h)

Step-IsTracked : (base : ℕ) (a a' : Account) → Step a a' → IsTracked base a → IsTracked base a'
Step-IsTracked base a a' s h = rw s.same (record {
  counted = omega (arith, length-append {0} a.uncommitted_events (s.event ∷ []), h.counted);
  numbered =
      Numbered-append base a.uncommitted_events s.event h.numbered
        (omega (arith, s.next_version, h.counted));
})

-- Whatever calls are made on an account, its version stays the stored version plus the number of
-- uncommitted events, and these are numbered one by one from the stored version on.
pub attempts-IsTracked :
    (base : ℕ) (cs : List Command) (a : Account) → IsTracked base a → IsTracked base (attempts cs a)
attempts-IsTracked base cs a h = attempts_keep (IsTracked base) (Step-IsTracked base) cs a h

-- Whatever calls are made on an account with a balance of at least 0, its balance stays at least 0.
pub attempts_nonneg :
    (cs : List Command) (a : Account)
    → pos 0 ≤ℤ a.state.balance
    → pos 0 ≤ℤ (attempts cs a).state.balance
attempts_nonneg cs a h =
    attempts_keep (λ b. pos 0 ≤ℤ b.state.balance) (λ b b' s p. s.covered p) cs a h

-- The amounts of the events, added up as `getHistory` does.
abbrev pub tally : ℤ → List (DomainEvent AccountEvent) → ℤ
tally b [] = b
tally b (e ∷ es) = tally (running e.event_data b) es

tally-append :
    (b : ℤ) (es : List (DomainEvent AccountEvent)) (e : DomainEvent AccountEvent)
    → tally b (es ++ (e ∷ [])) ≡ running e.event_data (tally b es)
tally-append b [] e = refl
tally-append b (f ∷ es) e = tally-append (running f.event_data b) es e

create-tally :
    (env : Env) (id client_id : ℕ) (number currency : String) (metadata : Metadata)
    → let a = create env id client_id number currency metadata in
      tally (pos 0) a.uncommitted_events ≡ a.state.balance
unfolding create
create-tally env id client_id number currency metadata = refl

-- After any calls on a created account, the balance that `when` copied from the events'
-- `newBalance` is the sum that `getHistory` computes from the amounts of the same events.
pub create-attempts-tally :
    (env : Env) (id client_id : ℕ) (number currency : String) (metadata : Metadata)
    (cs : List Command)
    → let a = attempts cs (create env id client_id number currency metadata) in
      tally (pos 0) a.uncommitted_events ≡ get_balance a
create-attempts-tally env id client_id number currency metadata cs =
    attempts_keep (λ b. tally (pos 0) b.uncommitted_events ≡ b.state.balance)
      (λ b b' s p. rw s.same (
        tally-append (pos 0) b.uncommitted_events s.event
        ∙ ap (running s.event.event_data) p
        ∙ s.agrees
        ∙ ap (λ (x : Account). x.state.balance) s.same))
      cs (create env id client_id number currency metadata)
      (create-tally env id client_id number currency metadata)

pub create-IsTracked :
    (env : Env) (id client_id : ℕ) (number currency : String) (metadata : Metadata)
    → IsTracked 0 (create env id client_id number currency metadata)
unfolding create
create-IsTracked env id client_id number currency metadata = record {
  counted = omega arith;
  numbered = (omega arith, tt);
}
