-- ===== src/Dlq/Kafka.antt =====
-- `KafkaDLQHandler.wrap` (packages/shared/src/dlq/kafka-dlq.handler.ts). Kafka delivers a message
-- again, as it is, while its consumer throws. The handler and the producer are parameters.
use banking_platform.Base.{
  ℕ, ◌+◌, ◌≤◌, leb, ◌≡◌, refl, Bool, Option, none, some, List, [], ◌∷◌, ◌++◌, map, if◌then◌else◌,
  arith,
}
use banking_platform.Shared.Errors.{Error, Result, ok, err}
use banking_platform.Shared.Events.{Payload, DomainEvent}

-- A message with its header 'retry-count'.
pub record KafkaMessage : Type 0 where
  pub event : DomainEvent Payload
  pub retry_count : Option ℕ

-- What is sent to the topic of dead letters.
pub record DeadLetter : Type 0 where
  pub event : DomainEvent Payload
  pub failure_reason : Error
  pub retry_count : ℕ

abbrev pub current_retries : Option ℕ → ℕ
current_retries none = 0
current_retries (some n) = n

module _ (max_retries : ℕ) (can_send : DeadLetter → Bool) where
  -- `sendToDLQ`: a failure of the producer is only logged.
  unfoldable pub send_to_dlq : DeadLetter → List DeadLetter → List DeadLetter
  send_to_dlq letter sent = if can_send letter then sent ++ (letter ∷ []) else sent

  unfoldable pub wrap :
      KafkaMessage → Option Error → List DeadLetter → Result (Unit {0}) × List DeadLetter
  unfolding send_to_dlq
  wrap message none sent = (ok tt, sent)
  wrap message (some error) sent =
      if leb max_retries (current_retries message.retry_count + 1)
      then (
        ok tt,
        send_to_dlq
            (record {
              event = message.event;
              failure_reason = error;
              retry_count = current_retries message.retry_count + 1;
            })
            sent,
      )
      else (err error, sent)

  -- The answers to a message that is delivered again and again, and what was sent.
  unfoldable pub redeliver :
      KafkaMessage → List Error → List DeadLetter → List (Result (Unit {0})) × List DeadLetter
  unfolding wrap
  redeliver message [] sent = ([], sent)
  redeliver message (e ∷ es) sent =
      let first = wrap message (some e) sent in
      let rest = redeliver message es first.1 in (first.0 ∷ rest.0, rest.1)

  -- The header is read but never written on a delivery. If at least two failures are to be allowed,
  -- then a message that comes without it fails however often it is delivered: each time the consumer
  -- throws, and the message never gets to the dead letters.
  pub redeliver-never_ends :
      (message : KafkaMessage) (errors : List Error) (sent : List DeadLetter)
      → 2 ≤ max_retries
      → message.retry_count ≡ none
      → redeliver message errors sent ≡ (map err errors, sent)
  unfolding redeliver wrap
  redeliver-never_ends message [] sent several fresh = refl
  redeliver-never_ends message (e ∷ es) sent several fresh =
      ground (arith, redeliver-never_ends message es sent several fresh)
