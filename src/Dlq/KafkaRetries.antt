-- ===== src/Dlq/KafkaRetries.antt =====
-- `KafkaDLQHandler.retryFromDLQ` and `getStats`, and `createDLQTopics` (packages/shared/src/dlq/
-- kafka-dlq.handler.ts). The broker and the handler are parameters: which messages are delivered while
-- the consumer runs, how the handler answers each, and what the admin client tells.
use Prim.Native.String.{◌++◌ as ◌<>◌}
use banking_platform.Base.{
  ℕ, ◌+◌, leb, String, Option, none, some, List, [], ◌∷◌, ◌++◌, map, if◌then◌else◌,
}
use banking_platform.Base.Int.{ℤ, pos, ◌+ℤ◌, ◌-ℤ◌}
use banking_platform.Shared.Errors.{Error, Result, ok, err}
use banking_platform.Shared.Events.{Payload, DomainEvent}

-- The counters of a run, and the events that were given to the handler.
pub record RetryRun : Type 0 where
  pub succeeded : ℕ
  pub failed : ℕ
  pub processed : ℕ
  pub handled : List (DomainEvent Payload)

abbrev pub new_run : RetryRun
new_run = record { succeeded = 0; failed = 0; processed = 0; handled = [] }

abbrev pub counted : Option Error → RetryRun → RetryRun
counted none r = record r { succeeded = r.succeeded + 1 }
counted (some e) r = record r { failed = r.failed + 1 }

module _ (handler : DomainEvent Payload → Option Error) (limit : ℕ) where
  abbrev pub handled_by : DomainEvent Payload → RetryRun → RetryRun
  handled_by event r = record (counted (handler event) r) {
    processed = r.processed + 1;
    handled = r.handled ++ (event ∷ []);
  }

  -- `eachMessage`: beyond the limit the consumer is paused and the message is passed over.
  unfoldable pub retry_message : DomainEvent Payload → RetryRun → RetryRun
  retry_message event r = if leb limit r.processed then r else handled_by event r

  -- The run over the messages that are delivered.
  unfoldable pub retry_from_dlq : List (DomainEvent Payload) → RetryRun → RetryRun
  unfolding retry_message
  retry_from_dlq [] r = r
  retry_from_dlq (event ∷ events) r = retry_from_dlq events (retry_message event r)

-- A partition as `fetchOffsets` tells it; `high` may be missing.
pub record PartitionOffset : Type 0 where
  pub high : Option ℤ
  pub offset : ℤ

-- `parseInt(partition.high || '0')`.
abbrev pub high_or_zero : Option ℤ → ℤ
high_or_zero none = pos 0
high_or_zero (some n) = n

abbrev pub total_from : ℤ → List PartitionOffset → ℤ
total_from total [] = total
total_from total (p ∷ ps) = total_from (total +ℤ (high_or_zero p.high -ℤ p.offset)) ps

pub record Stats : Type 0 where
  pub total_messages : ℤ
  pub oldest_message : Option ℕ
  pub newest_message : Option ℕ

-- `getStats`, by what `fetchOffsets` answers.
unfoldable pub get_stats : Result (List PartitionOffset) → Result Stats
get_stats (err e) = err e
get_stats (ok partitions) = ok (record {
  total_messages = total_from (pos 0) partitions;
  oldest_message = none;
  newest_message = none;
})

pub record TopicConfig : Type 0 where
  pub topic : String
  pub num_partitions : ℕ
  pub replication_factor : ℕ
  pub config_entries : List (String × String)

abbrev pub dlq_topic : String → TopicConfig
dlq_topic topic = record {
  topic = topic <> ".dlq";
  num_partitions = 3;
  replication_factor = 1;
  config_entries = ("retention.ms", "604800000") ∷ ("cleanup.policy", "delete") ∷ [];
}

-- How `createTopics` of the admin client ends; the message of an error may say 'already exists'.
pub data Created : Type 0 where
  created : Created
  already_exists : Created
  other_failure : Error → Created

abbrev pub settled : Created → Result (Unit {0})
settled created = ok tt
settled already_exists = ok tt
settled (other_failure e) = err e

-- `createDLQTopics`; `finally` disconnects the client.
unfoldable pub create_dlq_topics :
    (create_topics : List TopicConfig → Created) → List String → Result (Unit {0})
create_dlq_topics create_topics topics = settled (create_topics (map dlq_topic topics))
