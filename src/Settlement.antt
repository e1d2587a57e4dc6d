-- ===== src/Settlement.antt =====
-- The two services together: a withdrawal from its request (packages/transaction-service/src/saga) over
-- the customer service (packages/customer-service/src/subscribers) back to the projection
-- (packages/transaction-service/src/subscribers). Each event is delivered as it was announced.
use banking_platform.Base.{
  ℕ, ◌+◌, ◌≡◌, ◌≢◌, refl, sym, ap, ◌∙◌, true, false, none, some, [], ◌∷◌, ◌++◌, arith,
}
use banking_platform.Base.Int.{pos, ◌-ℤ◌, ◌≤ℤ◌, ltb_ℤ, -ℤ_parts}
use banking_platform.Shared.Errors.{ok}
use banking_platform.Shared.Events.{
  sum, withdrawal, Payload, TransactionRequestedPayload, TransactionCompletedPayload,
  BalanceUpdatedPayload, DomainEvent,
}
use banking_platform.Shared.Database.Progress.{calm}
use banking_platform.Shared.Tracker.{member}
use banking_platform.Outbox.Repository.{new_message, has_message}
use banking_platform.Customer.Repository.{Bank, Account, active, debit, matches, balance_of}
use banking_platform.Customer.Subscriber as Subscriber
use banking_platform.Customer.Accounts.{IsSound, account_of, account_of-updated}
use banking_platform.Customer.Ledger.{settle}
use banking_platform.Customer.Announcements.{told, balance_before-change}
use banking_platform.Customer.Progress.{on_transaction_completed-returns}
use banking_platform.Customer.PrismaBalances.{named_lem, account_of-id}
use banking_platform.Transaction.Repository.{Transaction, Ledger, transaction_of, projected}
use banking_platform.Transaction.Saga as Saga
use banking_platform.Transaction.Settling.{refusal, decided}
use banking_platform.Transaction.Decisions.{on_transaction_requested-Decides}
use banking_platform.Transaction.Projection.{on_balance_updated}
use banking_platform.Transaction.Balances.{announced, on_balance_updated-projects}

-- An event as the bus delivers it.
abbrev pub event_of : {P : Type 0} → ℕ → P → DomainEvent P
event_of id payload = record {
  id = id;
  timestamp = 0;
  correlation_id = none;
  causation_id = none;
  payload = payload;
}

abbrev pub requested_by : Transaction → TransactionRequestedPayload
requested_by t = record {
  transaction_id = t.id;
  type = t.type;
  amount = t.amount;
  currency = t.currency;
  source_account_id = t.source_account_id;
  target_account_id = t.target_account_id;
  idempotency_key = t.idempotency_key;
  description = t.description;
}

abbrev pub completed_by : Transaction → TransactionCompletedPayload
completed_by t = record {
  transaction_id = t.id;
  type = t.type;
  amount = t.amount;
  currency = t.currency;
  source_account_id = t.source_account_id;
  target_account_id = t.target_account_id;
  description = t.description;
}

abbrev pub withdrawn_from : ℕ → Account → Transaction → BalanceUpdatedPayload
withdrawn_from source a t = record {
  account_id = source;
  previous_balance = sum (a.balance -ℤ t.amount) t.amount;
  new_balance = a.balance -ℤ t.amount;
  transaction_id = t.id;
}

-- The tables after each handler.
abbrev pub decided_ledger : Saga.Env → ℕ → Transaction → Ledger → Ledger
decided_ledger env request_id t ledger =
    decided env (event_of request_id (requested_by t)) t none ledger

abbrev pub settled_bank : Subscriber.Env → ℕ → Transaction → ℕ → Account → Bank → Bank
settled_bank env completed_id t source a bank =
    told env (event_of completed_id (completed_by t)) debit source t.amount a bank

abbrev pub projected_ledger : ℕ → Transaction → ℕ → Account → Ledger → Ledger
projected_ledger updated_id t source a ledger =
    announced (event_of updated_id (withdrawn_from source a t)) ledger

-- What the three handlers did, and that each event is the one that was announced.
pub record HasSettled (saga_env : Saga.Env) (bank_env : Subscriber.Env)
    (request_id completed_id updated_id : ℕ) (t : Transaction) (source : ℕ) (a : Account)
    (ledger : Ledger) (bank : Bank) : Type 0 where
  pub decides :
      Saga.on_transaction_requested saga_env
        (event_of request_id (requested_by t))
        (calm ledger ledger)
      ≡ (
        ok tt,
        calm
            (decided_ledger saga_env request_id t ledger)
            (decided_ledger saga_env request_id t ledger),
      )
  pub announces_completion :
      (decided_ledger saga_env request_id t ledger).outbox
      ≡ ledger.outbox
        ++ (new_message saga_env.message_id
              (Payload.transaction_completed (completed_by t))
              none
              saga_env.now
            ∷ [])
  pub pays :
      Subscriber.on_transaction_completed bank_env
        (event_of completed_id (completed_by t))
        (calm bank bank)
      ≡ (
        ok tt,
        calm
            (settled_bank bank_env completed_id t source a bank)
            (settled_bank bank_env completed_id t source a bank),
      )
  pub announces_balance :
      (settled_bank bank_env completed_id t source a bank).outbox
      ≡ bank.outbox
        ++ (new_message bank_env.message_id
              (Payload.balance_updated (withdrawn_from source a t))
              none
              bank_env.now
            ∷ [])
  pub follows :
      on_balance_updated (event_of updated_id (withdrawn_from source a t)) (
        calm
          (decided_ledger saga_env request_id t ledger)
          (decided_ledger saga_env request_id t ledger))
      ≡ (
        ok tt,
        calm
            (projected_ledger updated_id t source a (decided_ledger saga_env request_id t ledger))
            (projected_ledger updated_id t source a (decided_ledger saga_env request_id t ledger)),
      )
  pub agrees :
      projected source
        (projected_ledger updated_id t source a
          (decided_ledger saga_env request_id t ledger)).projections
      ≡ balance_of (account_of source (settled_bank bank_env completed_id t source a bank).accounts)
  pub less :
      balance_of (account_of source (settled_bank bank_env completed_id t source a bank).accounts)
      ≡ some (a.balance -ℤ t.amount)

module _ (t : Transaction) (source : ℕ) (a : Account) (is_withdrawal : t.type ≡ withdrawal)
    (is_from : t.source_account_id ≡ some source) (enough : t.amount ≤ℤ a.balance) where
  not_short : ltb_ℤ a.balance t.amount ≡ false
  not_short = ground (arith, enough)

  not_negative : ltb_ℤ (a.balance -ℤ t.amount) (pos 0) ≡ false
  not_negative = ground (arith, enough, -ℤ_parts a.balance t.amount)

  not_refused :
      (ledger : Ledger)
      → projected source ledger.projections ≡ some a.balance
      → refusal (requested_by t) ledger.projections ≡ none
  not_refused ledger current = rw (is_withdrawal, is_from, current, not_short) refl

  fits_lem :
      (bank : Bank)
      → account_of source bank.accounts ≡ some a
      → a.status ≡ active
      → matches debit source t.amount a ≡ true
  fits_lem bank found is_active =
      rw (account_of-id source bank.accounts a found, is_active) (ground (arith, enough))

  settle-settled :
      (env : Subscriber.Env) (completed_id : ℕ) (bank : Bank)
      → IsSound bank.accounts
      → account_of source bank.accounts ≡ some a
      → a.status ≡ active
      → member completed_id bank.processed ≡ false
      → has_message env.message_id bank.outbox ≡ false
      → settle env (event_of completed_id (completed_by t)) bank
        ≡ some (tt, settled_bank env completed_id t source a bank)
  unfolding settle
  settle-settled env completed_id bank sound found is_active new fresh =
      let named =
        (named_lem debit source t.amount bank.accounts a sound found
          (fits_lem bank found is_active)).0 in
      rw
        (
          is_withdrawal,
          is_from,
          named,
          not_negative,
          fresh,
          new,
          balance_before-change env (event_of completed_id (completed_by t)) debit t.amount a,
        )
        refl

other_lem : (n : ℕ) → n + 1 ≢ n
other_lem n h = omega (arith, h)

-- Where no statement fails for reasons of its own and no event was processed before: a withdrawal of
-- no more than an active account has, requested while the projection knows the account's balance, is
-- completed by the saga; the completion that the saga announces takes the amount from the account; and
-- the balance that the customer service then announces makes the projection the account's balance
-- again, which is the amount less than before.
pub withdrawal-settles :
    (saga_env : Saga.Env) (bank_env : Subscriber.Env) (request_id completed_id updated_id : ℕ)
    (t : Transaction) (source : ℕ) (a : Account) (ledger : Ledger) (bank : Bank)
    → t.type ≡ withdrawal
    → t.source_account_id ≡ some source
    → t.amount ≤ℤ a.balance
    → transaction_of t.id ledger.transactions ≡ some t
    → projected source ledger.projections ≡ some a.balance
    → member request_id ledger.processed ≡ false
    → has_message saga_env.message_id ledger.outbox ≡ false
    → IsSound bank.accounts
    → account_of source bank.accounts ≡ some a
    → a.status ≡ active
    → member completed_id bank.processed ≡ false
    → has_message bank_env.message_id bank.outbox ≡ false
    → member updated_id (request_id ∷ ledger.processed) ≡ false
    → HasSettled saga_env bank_env request_id completed_id updated_id t source a ledger bank
withdrawal-settles saga_env bank_env request_id completed_id updated_id t source a ledger bank
      is_withdrawal is_from enough there current new fresh sound found is_active new' fresh' new'' =
    let after = decided_ledger saga_env request_id t ledger in
    let projects =
      on_balance_updated-projects (event_of updated_id (withdrawn_from source a t)) after after
        (source + 1) (other_lem source) new'' in
    let paid =
      account_of-updated debit source t.amount bank.accounts a sound
        (named_lem debit source t.amount bank.accounts a sound found
          (fits_lem t source a is_withdrawal is_from enough bank found is_active)).0 in
    record {
      decides =
          on_transaction_requested-Decides saga_env (event_of request_id (requested_by t)) ledger
            ledger t new fresh there
          ∙ ap
              (λ r. (
                ok tt,
                calm (decided saga_env (event_of request_id (requested_by t)) t r ledger)
                    (decided saga_env (event_of request_id (requested_by t)) t r ledger),
              ))
              (not_refused t source a is_withdrawal is_from enough ledger current);
      announces_completion = refl;
      pays =
          on_transaction_completed-returns bank_env (event_of completed_id (completed_by t)) bank
            bank (settled_bank bank_env completed_id t source a bank) new'
            (settle-settled t source a is_withdrawal is_from enough bank_env completed_id bank sound
              found is_active new' fresh');
      announces_balance = refl;
      follows = projects.0;
      agrees = projects.1 ∙ sym (ap balance_of paid.1);
      less = ap balance_of paid.1;
    }
