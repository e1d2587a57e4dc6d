-- ===== src/Bus.antt =====
-- The event buses (packages/shared/src/adapters/kafka-event-bus.ts, packages/shared/src/utils/
-- event-bus.ts): how an event is wrapped, published and handed to a subscriber.
pub mod Kafka
pub mod Nats
pub mod Deliveries
