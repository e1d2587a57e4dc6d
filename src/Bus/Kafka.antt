-- ===== src/Bus/Kafka.antt =====
-- `KafkaEventBus` (packages/shared/src/adapters/kafka-event-bus.ts). The producer is a parameter:
-- whether `send` succeeds. Kafka delivers a message again if `eachMessage` throws.
use text.Mathlib.Text.{◌==◌ as str_eq}
use banking_platform.Base.{
  ℕ, String, Bool, false, ◌||◌, not, Option, none, some, List, [], ◌∷◌, ◌++◌, select,
}
use banking_platform.Shared.Errors.{Error, Result, ok, err}
use banking_platform.Shared.Events.{Payload, DomainEvent, Subject, subject_of}
use banking_platform.Shared.Database.{Action, pure, throw, try_catch}

-- The topics that `connect` wants.
abbrev pub topics : List String
topics =
    "banking.clients.created" ∷ "banking.accounts.created" ∷ "banking.accounts.balance-updated"
    ∷ "banking.transactions.requested" ∷ "banking.transactions.completed"
    ∷ "banking.transactions.rejected" ∷ []

-- `existingTopics.includes(t)`.
abbrev pub includes : String → List String → Bool
includes t [] = false
includes t (u ∷ us) = str_eq u t || includes t us

unfoldable pub topics_to_create : List String → List String
topics_to_create existing = select (λ t. not (includes t existing)) topics

-- The topics after `connect`.
unfoldable pub connect : List String → List String
unfolding topics_to_create
connect existing = existing ++ topics_to_create existing

-- What `uuid()` and `new Date()` return.
pub record Env : Type 0 where
  pub event_id : ℕ
  pub now : ℕ

-- The event that `publish` wraps the data in.
abbrev pub wrap : Env → Payload → Option ℕ → Option ℕ → DomainEvent Payload
wrap env data_of correlation_id causation_id = record {
  id = env.event_id;
  timestamp = env.now;
  correlation_id = correlation_id;
  causation_id = causation_id;
  payload = data_of;
}

-- One message of a topic.
pub record KafkaRecord : Type 0 where
  pub topic : Subject
  pub key : ℕ
  pub value : DomainEvent Payload

module _ (send : KafkaRecord → Option Error) where
  abbrev pub sent : Option Error → KafkaRecord → List KafkaRecord → Result ℕ × List KafkaRecord
  sent (some e) message log = (err e, log)
  sent none message log = (ok message.key, log ++ (message ∷ []))

  -- `publish` with the log of the broker; it returns the identifier of the event.
  unfoldable pub publish :
      Env → Payload → Option ℕ → Option ℕ → List KafkaRecord → Result ℕ × List KafkaRecord
  publish env data_of correlation_id causation_id log =
      let message : KafkaRecord = record {
        topic = subject_of data_of;
        key = env.event_id;
        value = wrap env data_of correlation_id causation_id;
      } in
      sent (send message) message log

-- `eachMessage`: a message without a value is passed over; an error of the handler is logged and
-- thrown again.
unfoldable pub each_message :
    {Db P : Type 0}
    → (DomainEvent P → Action Db (Unit {0}))
    → Option (DomainEvent P)
    → Action Db (Unit {0})
each_message handler none = pure tt
each_message handler (some event) = try_catch (handler event) (λ e. throw e)
