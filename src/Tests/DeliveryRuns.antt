-- ===== src/Tests/DeliveryRuns.antt =====
-- The outbox and the dead letters (packages/shared/src/outbox, packages/shared/src/dlq) with a few
-- messages.
use banking_platform.Base.{
  ◌+◌, ◌==◌, ◌≡◌, refl, true, false, not, Option, none, some, List, [], ◌∷◌, ◌++◌, select, is_some,
  if◌then◌else◌, arith,
}
use banking_platform.Shared.Errors.{Error, database, type_error, ok, err}
use banking_platform.Shared.Events.{Payload, DomainEvent}
use banking_platform.Shared.Database.{Session}
use banking_platform.Shared.Database.Progress.{calm}
use banking_platform.Outbox.Repository.{OutboxMessage, new_message}
use banking_platform.Outbox.Oldest.{IsBatch}
use banking_platform.Outbox.Poller.{Relay, poll}
use banking_platform.Outbox.Delivery.{is_safe, poll-keeps}
use banking_platform.Outbox.Rounds.{after_cycle, poll-delivers}
use banking_platform.Dlq.Repository.{Desk}
use banking_platform.Dlq.Handler.{Config, wrap, retry_from_dlq}
use banking_platform.Dlq.Attempts.{
  failing, given_up, letter, taken_back, wrap-gives_up_after, retry_from_dlq-once,
}
use banking_platform.Dlq.Kafka as Kafka
use banking_platform.Dlq.KafkaRetries as KafkaRetries
use banking_platform.Dlq.RetryRuns.{retry_from_dlq-limits}

abbrev payload : Payload
payload =
    Payload.client_created
      (record { client_id = 9; name = "Ana"; email = "ana@example.pe"; document_number = "1" })

abbrev relayed : Relay
relayed = record {
  outbox = new_message 1 payload none 4 ∷ new_message 2 payload none 3 ∷ [];
  delivered = [];
}

-- The bus refuses the first message.
abbrev publish : OutboxMessage → Option Error
publish m = if m.id == 1 then some database else none

-- The second statement of the poll fails.
abbrev faulty : Session Relay
faulty = record { db = relayed; view = relayed; aborted = false; faults = false ∷ true ∷ [] }

poll-keeps_example : is_safe 2 (poll publish 9 false faulty).1.db ≡ true
poll-keeps_example = poll-keeps publish 9 false 2 faulty refl

poll-delivers_example :
    (batch : List OutboxMessage) × IsBatch 50 relayed.outbox batch
    × (poll publish 9 false (calm relayed relayed)
        ≡ (ok tt, calm (after_cycle publish 9 batch relayed) (after_cycle publish 9 batch relayed)))
    × ((after_cycle publish 9 batch relayed).delivered
        ≡ [] ++ select (λ m. not (is_some (publish m))) batch)
poll-delivers_example = poll-delivers publish 9 relayed relayed

abbrev config : Config
config = record { max_retries = 3; service_name = "customer"; consumer_group = none }

abbrev event : DomainEvent Payload
event = record {
  id = 70;
  timestamp = 0;
  correlation_id = none;
  causation_id = none;
  payload = payload;
}

abbrev desk : Desk
desk = record { letters = []; attempts = [] }

wrap-gives_up_after_example :
    let before = failing config event 1 5 (database ∷ type_error ∷ []) (calm desk desk) in
    (before.0 ≡ err database ∷ err type_error ∷ [])
    × (before.1.db.letters ≡ [])
    × (wrap config event 1 5 (some database) before.1 ≡ (
      ok tt,
      calm (given_up config event 1 5 database desk) (given_up config event 1 5 database desk),
    ))
wrap-gives_up_after_example =
    wrap-gives_up_after config event 1 5 (database ∷ type_error ∷ []) database desk desk refl refl
      (omega arith)

abbrev desk_with_letter : Desk
desk_with_letter = given_up config event 1 5 database desk

abbrev accept_all : DomainEvent Payload → Option Error
accept_all e = none

retry_from_dlq-once_example :
    (retry_from_dlq config accept_all 6 70 (calm desk_with_letter desk) ≡ (
      ok true,
      calm
          (taken_back 6 (letter config event 1 5 database) desk_with_letter)
          (taken_back 6 (letter config event 1 5 database) desk),
    ))
    × (retry_from_dlq config accept_all 7 70
          (calm (taken_back 6 (letter config event 1 5 database) desk_with_letter) desk)
        ≡ (ok false, calm (taken_back 6 (letter config event 1 5 database) desk_with_letter) desk))
retry_from_dlq-once_example =
    retry_from_dlq-once config accept_all accept_all 6 7 70 (letter config event 1 5 database)
      desk_with_letter desk desk refl refl refl

abbrev message : Kafka.KafkaMessage
message = record { event = event; retry_count = none }

-- The first of three letters is refused, and only two may be tried.
abbrev refuse_70 : DomainEvent Payload → Option Error
refuse_70 e = if e.id == 70 then some database else none

abbrev waiting : List (DomainEvent Payload)
waiting = event ∷ record event { id = 71 } ∷ record event { id = 72 } ∷ []

retry_from_dlq-limits_example :
    let r = KafkaRetries.retry_from_dlq refuse_70 2 waiting KafkaRetries.new_run in
    (r.handled ≡ event ∷ record event { id = 71 } ∷ []) × (r.succeeded + r.failed ≡ 2)
retry_from_dlq-limits_example = retry_from_dlq-limits refuse_70 2 waiting
