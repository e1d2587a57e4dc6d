-- ===== src/Bus/Nats.antt =====
-- `EventBus` (packages/shared/src/utils/event-bus.ts): the loop over the messages of a consumer. A
-- message that is not acknowledged is delivered again.
use text.Mathlib.Text.{◌==◌ as str_eq}
use text.Mathlib.TextPositions.{eq_refl as str_eq_refl}
use banking_platform.Base.{
  ℕ, ◌*◌, ◌≡◌, refl, String, Bool, true, false, ◌||◌, Option, none, some, List, [], ◌∷◌, ◌++◌,
  if◌then◌else◌, Bool-cases, inl, inr, arith,
}
use banking_platform.Shared.Errors.{Error, Result, ok, err}
use banking_platform.Shared.Events.{Payload, DomainEvent, Subject, subject_of}
use banking_platform.Bus.Kafka as Kafka
use banking_platform.Shared.Database.{Session, Action}

-- `msg.ack()`, or `msg.nak(delay)`.
pub data Verdict : Type 0 where
  ack : Verdict
  nak : (delay : ℕ) → Verdict

abbrev pub verdict_of : {A : Type 0} → Result A → Verdict
verdict_of (ok _) = ack
verdict_of (err _) = nak 5000

-- The body of the loop.
unfoldable pub on_message :
    {Db P : Type 0}
    → (DomainEvent P → Action Db (Unit {0}))
    → DomainEvent P
    → Session Db
    → Verdict × Session Db
on_message handler event s = (verdict_of (handler event s).0, (handler event s).1)

-- A stream of the broker.
pub record StreamConfig : Type 0 where
  pub name : String
  pub subjects : List String
  pub max_msgs : ℕ
  -- in nanoseconds
  pub max_age : ℕ

-- `config.streamName || 'BANKING'`; an empty name counts as none.
abbrev pub stream_name : Option String → String
stream_name none = "BANKING"
stream_name (some name) = if str_eq name "" then "BANKING" else name

abbrev pub new_stream : String → StreamConfig
new_stream name = record {
  name = name;
  subjects = "banking.>" ∷ [];
  max_msgs = 100000;
  max_age = 7 * 24 * 60 * 60 * 1000000000;
}

abbrev pub has_stream : String → List StreamConfig → Bool
has_stream name [] = false
has_stream name (c ∷ cs) = str_eq c.name name || has_stream name cs

-- The streams after `connect`: the stream is added if the broker has none of its name.
unfoldable pub connect : String → List StreamConfig → List StreamConfig
connect name streams =
    if has_stream name streams then streams else streams ++ (new_stream name ∷ [])

-- The configuration of a durable consumer, which is told everything and acknowledges each message.
pub record ConsumerConfig : Type 0 where
  pub durable_name : String
  pub filter_subject : Subject

abbrev pub has_consumer : String → List ConsumerConfig → Bool
has_consumer name [] = false
has_consumer name (c ∷ cs) = str_eq c.durable_name name || has_consumer name cs

-- The consumers of the stream after `subscribe`.
unfoldable pub subscribe : Subject → String → List ConsumerConfig → List ConsumerConfig
subscribe subject durable_name consumers =
    if has_consumer durable_name consumers
    then consumers
    else consumers ++ (record { durable_name = durable_name; filter_subject = subject } ∷ [])

-- What the server is given, and whether it accepts it.
module _ (accepts : Subject → DomainEvent Payload → Option Error) where
  abbrev pub sent :
      Option Error
      → DomainEvent Payload
      → List (DomainEvent Payload)
      → Result ℕ × List (DomainEvent Payload)
  sent (some e) event log = (err e, log)
  sent none event log = (ok event.id, log ++ (event ∷ []))

  -- `publish` with the stream; it returns the identifier of the event.
  unfoldable pub publish :
      Kafka.Env
      → Payload
      → Option ℕ
      → Option ℕ
      → List (DomainEvent Payload)
      → Result ℕ × List (DomainEvent Payload)
  publish env data_of correlation_id causation_id log =
      let event = Kafka.wrap env data_of correlation_id causation_id in
      sent (accepts (subject_of data_of) event) event log

has_stream-new :
    (name : String) (streams : List StreamConfig)
    → has_stream name (streams ++ (new_stream name ∷ [])) ≡ true
has_stream-new name [] = rw (str_eq_refl name) refl
has_stream-new name (c ∷ cs) = ground (arith, has_stream-new name cs)

-- Services that connect one after another share one stream: a second `connect` by the same name
-- changes nothing.
connect-twice :
    (name : String) (streams : List StreamConfig)
    → connect name (connect name streams) ≡ connect name streams
unfolding connect
connect-twice name streams = elim (Bool-cases (has_stream name streams)) [
  | inl there ↦ rw (there, there) refl
  | inr missing ↦ rw (missing, has_stream-new name streams) refl
]
