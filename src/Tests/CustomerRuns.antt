-- ===== src/Tests/CustomerRuns.antt =====
-- The customer service (packages/customer-service/src) on two accounts with 100 and 50.
use banking_platform.Base.{
  ℕ, ◌==◌, ◌≡◌, refl, true, false, Option, none, some, [], ◌∷◌, find, arith,
}
use banking_platform.Base.Int.{pos, ◌+ℤ◌, ◌-ℤ◌}
use banking_platform.Shared.Errors.{ok}
use banking_platform.Shared.Events.{
  TransactionType, withdrawal, deposit, transfer, TransactionCompletedPayload, DomainEvent,
}
use banking_platform.Shared.Database.{
  Session, in_transaction, connect, begin, commit, rollback, on_pool, on_client,
}
use banking_platform.Shared.Database.Progress.{calm}
use banking_platform.Shared.Tracker.{is_processed, mark_processed}
use banking_platform.Outbox.Repository.{insert}
use banking_platform.Customer.Repository.{Bank, Account, Client, active, update_balance}
use banking_platform.Customer.Subscriber.{Env, body, on_transaction_completed}
use banking_platform.Customer.Accounts.{account_of}
use banking_platform.Customer.Ledger.{Handles, settle, on_transaction_completed-Handles}
use banking_platform.Customer.Conservation.{Accounted, on_transaction_completed-Accounted}
use banking_platform.Customer.Effects.{
  Transferred, on_transaction_completed-Transferred, on_transaction_completed_dropped,
}
use banking_platform.Customer.Redelivery.{on_transaction_completed_twice}
use banking_platform.Customer.Progress.{on_transaction_completed-returns}
use banking_platform.Customer.Service as Service
use banking_platform.Customer.Opening.{reply, account_answer, open_account-answers}

abbrev pub env : Env
env = record { message_id = 1; second_message_id = 2; now = 7 }

abbrev pub account : ℕ → ℕ → Account
account id cents = record {
  id = id;
  client_id = 9;
  account_number = "191-0000000001";
  balance = pos cents;
  currency = "PEN";
  status = active;
  created_at = 0;
}

abbrev pub client_9 : Client
client_9 = record {
  id = 9;
  name = "Ana";
  email = "ana@example.pe";
  document_number = "1";
  created_at = 0;
}

abbrev pub bank : Bank
bank = record {
  clients = client_9 ∷ [];
  accounts = account 1 100 ∷ account 2 50 ∷ account 3 5 ∷ [];
  processed = [];
  outbox = [];
}

abbrev pub event :
    TransactionType → Option ℕ → Option ℕ → ℕ → DomainEvent TransactionCompletedPayload
event type source target cents = record {
  id = 70;
  timestamp = 0;
  correlation_id = none;
  causation_id = none;
  payload = record {
    transaction_id = 5;
    type = type;
    amount = pos cents;
    currency = "PEN";
    source_account_id = source;
    target_account_id = target;
    description = none;
  };
}

abbrev pub transfer_30 : DomainEvent TransactionCompletedPayload
transfer_30 = event transfer (some 1) (some 2) 30

abbrev withdrawal_200 : DomainEvent TransactionCompletedPayload
withdrawal_200 = event withdrawal (some 1) none 200

abbrev after_transfer : Session Bank
after_transfer = (on_transaction_completed env transfer_30 (calm bank bank)).1

-- The connection is lost at the third statement.
abbrev faulty : Session Bank
faulty = record { db = bank; view = bank; aborted = false; faults = false ∷ false ∷ true ∷ [] }

transfer_returns : (on_transaction_completed env transfer_30 (calm bank bank)).0 ≡ ok tt
unfolding on_transaction_completed body is_processed mark_processed update_balance insert
    in_transaction connect begin commit rollback on_pool on_client ◌+ℤ◌ ◌-ℤ◌
transfer_returns = refl

transfer_moves : account_of 2 after_transfer.db.accounts ≡ some (account 2 80)
unfolding on_transaction_completed body is_processed mark_processed update_balance insert
    in_transaction connect begin commit rollback on_pool on_client ◌+ℤ◌ ◌-ℤ◌
transfer_moves = refl

faulty_throws : (on_transaction_completed env transfer_30 faulty).1.db ≡ bank
unfolding on_transaction_completed body is_processed mark_processed update_balance insert
    in_transaction connect begin commit rollback on_pool on_client ◌+ℤ◌ ◌-ℤ◌
faulty_throws = refl

on_transaction_completed-Transferred_example :
    Transferred 1 2 3 (pos 30) bank.accounts after_transfer.db.accounts
on_transaction_completed-Transferred_example =
    on_transaction_completed-Transferred env transfer_30 (calm bank bank) 1 2 3 refl refl refl
      (λ e. omega arith) (λ e. omega arith) (λ e. omega arith)
      (omega arith, refl, (omega arith, refl, (omega arith, refl, tt))) refl transfer_returns

on_transaction_completed-Accounted_example :
    Accounted withdrawal
      (pos 200)
      bank.accounts
      (on_transaction_completed env withdrawal_200 faulty).1.db.accounts
on_transaction_completed-Accounted_example =
    on_transaction_completed-Accounted env withdrawal_200 faulty
      (omega arith, refl, (omega arith, refl, (omega arith, refl, tt)))

on_transaction_completed-Handles_example :
    Handles env transfer_30 bank (on_transaction_completed env transfer_30 faulty)
on_transaction_completed-Handles_example = on_transaction_completed-Handles env transfer_30 faulty

on_transaction_completed_twice_example :
    (on_transaction_completed env transfer_30 after_transfer).1.db ≡ after_transfer.db
on_transaction_completed_twice_example =
    on_transaction_completed_twice env transfer_30 (calm bank bank) after_transfer transfer_returns
      refl

on_transaction_completed-returns_example :
    on_transaction_completed env transfer_30 (calm bank bank)
    ≡ (ok tt, calm after_transfer.db after_transfer.db)
unfolding settle on_transaction_completed body is_processed mark_processed update_balance insert
    in_transaction connect begin commit rollback on_pool on_client ◌+ℤ◌ ◌-ℤ◌
on_transaction_completed-returns_example =
    on_transaction_completed-returns env transfer_30 bank bank after_transfer.db refl refl

on_transaction_completed_dropped_example :
    on_transaction_completed env withdrawal_200 (calm bank bank)
    ≡ (ok tt, calm (record bank { processed = 70 ∷ [] }) (record bank { processed = 70 ∷ [] }))
on_transaction_completed_dropped_example =
    on_transaction_completed_dropped env withdrawal_200 bank bank 1 refl refl refl refl

abbrev opening : Service.Env
opening = record { id = 4; message_id = 3; account_number = "191-0000000004"; now = 8 }

abbrev new_client : Service.CreateClientInput
new_client = record { name = "Ben"; email = "ben@example.pe"; document_number = "2" }

abbrev new_account : Service.CreateAccountInput
new_account = record { client_id = 9; currency = none; initial_balance = some (pos 10) }

open_account-answers_example :
    reply (Service.open_account opening new_account none (calm bank bank))
    ≡ account_answer opening new_account none (find (λ c. c.id == 9) bank.clients) bank
open_account-answers_example = open_account-answers opening new_account none bank bank refl

abbrev withdrawal_40 : DomainEvent TransactionCompletedPayload
withdrawal_40 = event withdrawal (some 1) none 40

abbrev deposit_40 : DomainEvent TransactionCompletedPayload
deposit_40 = event deposit none (some 2) 40
