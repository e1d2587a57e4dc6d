-- ===== src/Tests/SettlementRuns.antt =====
-- A withdrawal of 20 from account 1, which has 100 and is projected at 100, over both services.
use banking_platform.Base.{refl, none, some, [], ◌∷◌, arith}
use banking_platform.Base.Int.{pos}
use banking_platform.Shared.Events.{withdrawal}
use banking_platform.Transaction.Repository.{Transaction, Ledger, new_transaction}
use banking_platform.Transaction.Saga as Saga
use banking_platform.Settlement.{HasSettled, withdrawal-settles}
use banking_platform.Tests.CustomerRuns.{env, account, bank}

abbrev saga_env : Saga.Env
saga_env = record { message_id = 1; second_message_id = 2; now = 7 }

abbrev row : Transaction
row = new_transaction 5 0 withdrawal (pos 20) "PEN" (some 1) none "key" none

abbrev ledger : Ledger
ledger = record {
  transactions = row ∷ [];
  processed = [];
  projections = record { account_id = 1; balance = pos 100; currency = "PEN" } ∷ [];
  outbox = [];
}

withdrawal-settles_example : HasSettled saga_env env 70 71 72 row 1 (account 1 100) ledger bank
withdrawal-settles_example =
    withdrawal-settles saga_env env 70 71 72 row 1 (account 1 100) ledger bank refl refl
      (omega arith) refl refl refl refl
      (omega arith, refl, (omega arith, refl, (omega arith, refl, tt))) refl refl refl refl refl
