-- ===== src/Tests/BusRuns.antt =====
-- A transfer that the bus (packages/shared/src/utils/event-bus.ts) delivers three times, the life of a
-- poller (packages/shared/src/outbox/outbox.poller.ts) and the balances of both repositories.
use banking_platform.Base.{◌≡◌, refl, true, false, List, [], ◌∷◌, arith}
use banking_platform.Base.Int.{pos, ◌-ℤ◌, ◌+ℤ◌}
use banking_platform.Shared.Database.{
  in_transaction, connect, begin, commit, rollback, on_pool, on_client, pool,
}
use banking_platform.Shared.Database.Progress.{calm}
use banking_platform.Shared.Tracker.{is_processed, mark_processed}
use banking_platform.Outbox.Repository.{insert}
use banking_platform.Outbox.Lifecycle.{
  PollerState, new_poller, start, stop, connected, Reachable, new, after, starts, stops, connects,
}
use banking_platform.Outbox.Timers.{IsTidy, Reachable-IsTidy}
use banking_platform.Shared.Errors.{ok, err, database}
use banking_platform.Customer.Repository.{debit, update_balance}
use banking_platform.Customer.Subscriber.{body, on_transaction_completed}
use banking_platform.Customer.Prisma as Prisma
use banking_platform.Customer.PrismaBalances.{update_balance-agrees}
use banking_platform.Bus.Kafka.{each_message}
use banking_platform.Bus.Deliveries.{
  Delivery, deliver_all, any_consumed, Promise, deliver_all-refines,
}
use banking_platform.Tests.CustomerRuns.{env, account, bank, transfer_30}

-- The first delivery loses the connection at its third statement.
abbrev deliveries : List Delivery
deliveries =
    record { env = env; faults = false ∷ false ∷ true ∷ [] }
    ∷ record { env = env; faults = [] }
    ∷ record { env = env; faults = [] }
    ∷ []

delivered_again : (deliver_all transfer_30 deliveries bank).0 ≡ err database ∷ ok tt ∷ ok tt ∷ []
unfolding each_message on_transaction_completed body is_processed mark_processed update_balance
    insert in_transaction connect begin commit rollback on_pool on_client ◌-ℤ◌ ◌+ℤ◌
delivered_again = refl

deliver_all-refines_example :
    Promise transfer_30 bank
      (any_consumed (deliver_all transfer_30 deliveries bank).0)
      (deliver_all transfer_30 deliveries bank).1
deliver_all-refines_example = deliver_all-refines transfer_30 deliveries bank refl

-- A poller that is started twice and stopped while it still connects.
abbrev stopped_early : PollerState
stopped_early = connected (stop (start true (start true (new_poller 5000))))

stopped_early-Reachable : Reachable 5000 stopped_early
stopped_early-Reachable =
    after (stop (start true (start true (new_poller 5000)))) stopped_early
      (after (start true (start true (new_poller 5000)))
        (stop (start true (start true (new_poller 5000))))
        (after (start true (new_poller 5000)) (start true (start true (new_poller 5000)))
          (after (new_poller 5000) (start true (new_poller 5000)) new
            (starts true (new_poller 5000)))
          (starts true (start true (new_poller 5000))))
        (stops (start true (start true (new_poller 5000)))))
      (connects (stop (start true (start true (new_poller 5000)))))

-- It then listens although it was stopped.
still_listens : stopped_early.listening ≡ true
unfolding start stop connected
still_listens = refl

Reachable-IsTidy_example : IsTidy 5000 stopped_early
Reachable-IsTidy_example = Reachable-IsTidy 5000 stopped_early stopped_early-Reachable

update_balance-agrees_example :
    Prisma.update_balance 2 (pos 70) debit (calm bank bank)
    ≡ update_balance 2 (pos 70) debit pool (calm bank bank)
update_balance-agrees_example =
    update_balance-agrees debit 2 (pos 70) bank (account 2 50)
      (omega arith, refl, (omega arith, refl, (omega arith, refl, tt))) refl refl (omega arith)
