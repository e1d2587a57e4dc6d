-- ===== src/Outbox/Poller.antt =====
-- `OutboxPoller.poll` (packages/shared/src/outbox/outbox.poller.ts). The event bus is a parameter:
-- whether `publish` of a message succeeds. Of the timers and the `LISTEN` connection only that they
-- call `poll` is of interest here.
use banking_platform.Base.{ℕ, Bool, true, false, Option, none, some, List, [], ◌∷◌, ◌++◌}
use banking_platform.Shared.Errors.{Error, ok, err}
use banking_platform.Shared.Database.{Statement, Action, pure, ◌>>=◌, ◌>>◌, on_pool, try_catch}
use banking_platform.Outbox.Repository.{
  OutboxMessage, get_pending, mark_published, record_failure, delete_published,
}

-- The table `outbox`, and what the bus has accepted, in order.
pub record Relay : Type 0 where
  pub outbox : List OutboxMessage
  pub delivered : List OutboxMessage

abbrev pub accept : OutboxMessage → Relay → Relay
accept m r = record r { delivered = r.delivered ++ (m ∷ []) }

abbrev pub change_outbox : (List OutboxMessage → List OutboxMessage) → Statement Relay (Unit {0})
change_outbox f r = some (tt, record r { outbox = f r.outbox })

abbrev pub select_pending : ℕ → Statement Relay (List OutboxMessage)
select_pending limit r = some (get_pending limit r.outbox, r)

abbrev pub delete_statement : ℕ → ℕ → Statement Relay ℕ
delete_statement now hours r = some (
  (delete_published now hours r.outbox).0,
  record r { outbox = (delete_published now hours r.outbox).1 },
)

abbrev pub answer : Option Error → OutboxMessage → Action Relay (Unit {0})
answer (some e) m s = (err e, s)
answer none m s = (ok tt, record s { db = accept m s.db; view = accept m s.view })

module _ (publish : OutboxMessage → Option Error) (now : ℕ) where
  -- The body of the loop.
  abbrev pub relay : OutboxMessage → Action Relay (Unit {0})
  relay m =
      try_catch (do answer (publish m) m; on_pool (change_outbox (mark_published now m.id)))
        (λ e. on_pool (change_outbox (record_failure m.id e)))

  abbrev pub relay_all : List OutboxMessage → Action Relay (Unit {0})
  relay_all [] = pure tt
  relay_all (m ∷ ms) = do relay m; relay_all ms

  -- Without a message the cycle ends before the clean-up.
  abbrev pub cycle : List OutboxMessage → Action Relay (Unit {0})
  cycle [] = pure tt
  cycle (m ∷ ms) = do relay_all (m ∷ ms); _ ← on_pool (delete_statement now 24); pure tt

  -- `poll`, by the flag `isPollRunning`. A failure of a statement ends the cycle and is logged.
  unfoldable pub poll : Bool → Action Relay (Unit {0})
  poll true = pure tt
  poll false = try_catch (do messages ← on_pool (select_pending 50); cycle messages) (λ _. pure tt)
