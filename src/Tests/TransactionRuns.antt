-- ===== src/Tests/TransactionRuns.antt =====
-- The transaction service (packages/transaction-service/src) with two accounts, projected at 100
-- and 50.
use banking_platform.Base.{ℕ, ◌≡◌, refl, none, some, [], ◌∷◌, String, arith}
use banking_platform.Base.Int.{pos}
use banking_platform.Shared.Errors.{ok, err, database, duplicate_transaction}
use banking_platform.Shared.Events.{
  amount_itself, withdrawal, transfer, TransactionRequestedPayload, AccountCreatedPayload,
  BalanceUpdatedPayload, DomainEvent,
}
use banking_platform.Shared.Database.{◌>>◌}
use banking_platform.Shared.Database.Progress.{calm}
use banking_platform.Transaction.Repository.{Transaction, Ledger, new_transaction, projected}
use banking_platform.Transaction.Saga as Saga
use banking_platform.Transaction.Service as Service
use banking_platform.Transaction.Projection as Projector
use banking_platform.Transaction.Decisions.{
  on_transaction_requested-Decides, on_transaction_requested-completes_both,
}
use banking_platform.Transaction.Settling.{decided, refusal}
use banking_platform.Transaction.Storing.{reply}
use banking_platform.Transaction.Requests.{
  answer, objection, outbox_fails, with_row, request_transaction-answers,
  request_transaction-orphans,
}
use banking_platform.Transaction.Balances.{announced, on_balance_updated-projects}

abbrev env : Saga.Env
env = record { message_id = 1; second_message_id = 2; now = 7 }

abbrev env' : Saga.Env
env' = record { message_id = 3; second_message_id = 4; now = 8 }

-- Two withdrawals of 80 from the same account.
abbrev row : ℕ → String → Transaction
row id key = new_transaction id 0 withdrawal (pos 80) "PEN" (some 1) none key none

abbrev ledger : Ledger
ledger = record {
  transactions = row 5 "a" ∷ row 6 "b" ∷ [];
  processed = [];
  projections =
      record { account_id = 1; balance = pos 100; currency = "PEN" }
      ∷ record { account_id = 2; balance = pos 50; currency = "PEN" }
      ∷ [];
  outbox = [];
}

abbrev event : ℕ → ℕ → String → ℕ → DomainEvent TransactionRequestedPayload
event id transaction_id key cents = record {
  id = id;
  timestamp = 0;
  correlation_id = none;
  causation_id = none;
  payload = record {
    transaction_id = transaction_id;
    type = withdrawal;
    amount = pos cents;
    currency = "PEN";
    source_account_id = some 1;
    target_account_id = none;
    idempotency_key = key;
    description = none;
  };
}

abbrev after_first : Ledger
after_first = decided env (event 70 5 "a" 80) (row 5 "a") none ledger

first_is_fine : refusal (event 70 5 "a" 80).payload ledger.projections ≡ none
first_is_fine = refl

on_transaction_requested-Decides_example :
    Saga.on_transaction_requested env (event 70 5 "a" 80) (calm ledger ledger)
    ≡ (ok tt, calm after_first after_first)
on_transaction_requested-Decides_example =
    on_transaction_requested-Decides env (event 70 5 "a" 80) ledger ledger (row 5 "a") refl refl
      refl

abbrev after_both : Ledger
after_both = decided env' (event 71 6 "b" 80) (row 6 "b") none after_first

on_transaction_requested-completes_both_example :
    (Saga.on_transaction_requested env (event 70 5 "a" 80)
        >> Saga.on_transaction_requested env' (event 71 6 "b" 80))
      (calm ledger ledger)
    ≡ (ok tt, calm after_both after_both)
on_transaction_requested-completes_both_example =
    on_transaction_requested-completes_both env env' (event 70 5 "a" 80) (event 71 6 "b" 80) ledger
      ledger (row 5 "a") (row 6 "b") refl refl refl refl refl refl refl refl

abbrev fetch : ℕ → Service.Response
fetch id = Service.response_ok

abbrev request_env : Service.Env
request_env = record { transaction_id = 8; message_id = 9; now = 3 }

abbrev input : Service.CreateTransactionInput
input = record {
  type = transfer;
  amount = pos 10;
  currency = none;
  source_account_id = some 1;
  target_account_id = some 2;
  idempotency_key = "c";
  description = none;
}

request_transaction-answers_example :
    reply (Service.request_transaction fetch request_env input none (calm ledger ledger))
    ≡ answer request_env input none (objection fetch input ledger) ledger
request_transaction-answers_example =
    request_transaction-answers fetch request_env input none ledger ledger refl

request_transaction-orphans_example :
    (reply (Service.request_transaction fetch request_env input none (outbox_fails ledger ledger))
      ≡ (err database, with_row request_env input ledger))
    × (reply (
          Service.request_transaction fetch request_env input none
            (calm (with_row request_env input ledger) ledger))
        ≡ (err (duplicate_transaction "c"), with_row request_env input ledger))
unfolding Service.validate Service.validate_accounts
request_transaction-orphans_example =
    request_transaction-orphans fetch request_env request_env input input none ledger ledger ledger
      refl refl refl refl

abbrev balance_updated : DomainEvent BalanceUpdatedPayload
balance_updated = record {
  id = 80;
  timestamp = 0;
  correlation_id = none;
  causation_id = none;
  payload = record {
    account_id = 1;
    previous_balance = amount_itself (pos 100);
    new_balance = pos 20;
    transaction_id = 5;
  };
}

on_balance_updated-projects_example :
    (Projector.on_balance_updated balance_updated (calm ledger ledger)
      ≡ (ok tt, calm (announced balance_updated ledger) (announced balance_updated ledger)))
    × (projected 1 (announced balance_updated ledger).projections ≡ some (pos 20))
    × (projected 2 (announced balance_updated ledger).projections ≡ projected 2 ledger.projections)
    × (Projector.on_balance_updated balance_updated (calm (announced balance_updated ledger) ledger)
        ≡ (ok tt, calm (announced balance_updated ledger) ledger))
on_balance_updated-projects_example =
    on_balance_updated-projects balance_updated ledger ledger 2 (λ e. omega arith) refl

abbrev account_created : DomainEvent AccountCreatedPayload
account_created = record {
  id = 81;
  timestamp = 0;
  correlation_id = none;
  causation_id = none;
  payload = record {
    account_id = 3;
    client_id = 9;
    account_number = "191-0000000003";
    currency = "PEN";
    initial_balance = pos 10;
  };
}

abbrev show : ℕ → String
show id = "3"

abbrev projector_env : Projector.Env
projector_env = record { transaction_id = 8; message_id = 9; now = 3 }
