-- ===== src/Outbox/Queue.antt =====
-- `insert` of packages/shared/src/outbox/outbox.repository.ts on the client of a transaction, as one
-- change of the tables.
use banking_platform.Base.{ℕ, Option, some}
use banking_platform.Shared.Events.{Payload}
use banking_platform.Shared.Database.{Statement, client}
use banking_platform.Shared.Database.Atomicity.{
  chain, IsClient, on_client-IsClient, caught-IsClient, pure-IsClient, >>=-IsClient,
}
use banking_platform.Shared.Database.Progress.{
  Runs, on_client-Runs, caught-Runs, pure-Runs, >>=-Runs,
}
use banking_platform.Outbox.Repository.{HasOutbox, insert, insert_message, new_message, notify}

module _ {Db : Type 0} ⦃t : HasOutbox Db⦄ where
  abbrev pub queue : ℕ → ℕ → Payload → Option ℕ → Statement Db ℕ
  queue id now payload correlation_id =
      chain (insert_message (new_message id payload correlation_id now))
        (λ _. chain notify (λ _ db. some (id, db)))

  pub queue-IsClient :
      (id now : ℕ) (payload : Payload) (correlation_id : Option ℕ)
      → IsClient (insert id now payload client correlation_id) (queue id now payload correlation_id)
  unfolding insert
  queue-IsClient id now payload correlation_id =
      >>=-IsClient _ _ _ _ (on_client-IsClient _)
        (λ _. >>=-IsClient _ _ _ _ (caught-IsClient notify tt) (λ _. pure-IsClient id))

  pub queue-Runs :
      (id now : ℕ) (payload : Payload) (correlation_id : Option ℕ)
      → Runs (insert id now payload client correlation_id) (queue id now payload correlation_id)
  unfolding insert
  queue-Runs id now payload correlation_id =
      >>=-Runs _ _ _ _ (on_client-Runs (insert_message (new_message id payload correlation_id now)))
        (λ _. >>=-Runs _ _ _ _ (caught-Runs notify tt) (λ _. pure-Runs id))
