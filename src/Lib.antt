-- ===== src/Lib.antt =====
-- A verification library of the banking platform: customers and their accounts, transactions between
-- them, the events that tie the services together, and event sourcing.
--
-- How the program works. The customer service keeps accounts and balances; the transaction service
-- takes requests, keeps its own projection of the balances, and decides each request in a saga. They
-- talk through events only. A service writes an event into its table `outbox`; a poller hands it to
-- the bus, which delivers it at least once; each subscriber remembers the processed events. A
-- request becomes `TransactionRequested`, which the saga answers with `TransactionCompleted` or
-- `TransactionRejected`; the customer service moves the money of a completed one and announces
-- `BalanceUpdated`, from which the projection follows. An event that keeps failing becomes a dead
-- letter. Apart from this the shared package has an event-sourced account.
--
-- The files, with the code that each models:
--   Base: numbers, lists, Boolean tests, and signed integers for money.
--   Shared.Errors, Shared.Events: packages/shared/src/utils/errors.ts, packages/shared/src/events/index.ts
--     and the enums of packages/shared/src/types/index.ts.
--   Shared.Database: how the services use PostgreSQL: `pool.query` is `on_pool`, `client.query` is
--     `on_client`, and `BEGIN` to `COMMIT` in a `try` is `in_transaction`. Atomicity and Progress below
--     it are its general lemmas, with and without failing statements.
--   Shared.Tracker: the table of processed events of both services.
--   EventSourcing: Aggregate, Account, Store, Repository and AccountRepository model the files of
--     packages/shared/src/event-sourcing; the modules beside them prove.
--   Outbox: Repository, Poller and Lifecycle model packages/shared/src/outbox; Queue, Delivery, Oldest,
--     Rounds and Timers prove.
--   Customer: Repository, Subscriber, Service and Prisma model packages/customer-service/src; the modules
--     beside them prove.
--   Transaction: Repository, Service, Saga and Projection model packages/transaction-service/src;
--     Settling, Decisions, Storing, Requests and Balances prove.
--   Dlq: Repository, Reports, Handler, Kafka and KafkaRetries model packages/shared/src/dlq; Attempts and
--     RetryRuns prove.
--   Bus: Kafka and Nats model packages/shared/src/adapters/kafka-event-bus.ts and
--     packages/shared/src/utils/event-bus.ts; Deliveries is about the bus and the customer service together.
--   Ai: Retry, Limiter, Provider, Mock, Prompts, Service, Risk and Subscriber model
--     packages/ai-service/src; Pacing and Caching prove.
--   Cache: Service and Entities model packages/shared/src/cache/cache-service.ts over Redis, an interface
--     with laws, and Connection models redis-client.ts beside it; Entries and Window prove.
--   Gateway: Http, Guards, Proxy and Login model packages/api-gateway/src; Access and Sessions prove.
--   Security: Json, Middleware and Signatures model packages/shared/src/security/owasp-middleware.ts,
--     packages/shared/src/middleware/correlation.ts and packages/shared/src/utils/error-handler.ts;
--     Cleaning proves.
--   Health, Metrics: packages/shared/src/health/health-checker.ts and
--     packages/shared/src/metrics/prometheus.ts; Worst and Requests below them prove.
--   Graph: Values, Breakers and Resolvers model packages/graphql-gateway/src.
--   Controllers: Customer, Transactions and Ai model the controllers, the DTO classes and the exception
--     filter of the three services; Statuses and Risks prove.
--   Settlement: the saga, the customer service and the projection together, over one withdrawal.
--   Tests: runs on small inputs, and the theorems at such inputs; a Redis in memory and tokens in the
--     clear, which have the behaviour that the interfaces name.
--
-- How the code corresponds. A table is a list of rows in the order of insertion, and a unique key or a
-- `CHECK` is a test that refuses a statement. A handler is a function of the session (the committed
-- tables, what the open transaction sees, whether it is aborted, and which of the statements to come
-- fail for reasons of their own) that returns or throws and gives the session back. `calm` is a session
-- in which no statement fails for such reasons. What `uuid()`, `NOW()` and `generateAccountNumber()`
-- return, and how `fetch`, the bus and the wrapped handlers answer, are arguments. Names of the source
-- are written in snake case; where two operations of one service have the same name the table's is
-- called after its row (`create_client`, `register_client`).
--
-- Bounds. Identifiers are natural numbers, since the code only compares them; the texts that it shows
-- or compares are strings. Money is a whole number of cents, as in the columns of type DECIMAL(15,2),
-- whose upper limit is left out; a number that the code computes for an event from two amounts is kept as
-- that sum or difference, since JavaScript rounds it. A text of type VARCHAR(n) is refused if it is longer
-- (PostgreSQL cuts a text whose excess is only spaces; that is left out). An event identifier is a UUID
-- or a generated text, which a column of type UUID refuses. Times are natural numbers. Every loop runs
-- over a list, so nothing needs fuel; the only limits are those of the code (fifty messages for a poll, fifty transactions for
-- a listing, a snapshot at each tenth version).
--
-- What is a parameter. Redis, the signing and checking of tokens, SHA-256, `parseInt`, the printing of
-- numbers, the language model, the answers of HTTP calls and the end of a call behind a circuit breaker
-- are not part of this code; where their behaviour matters, the law that is used stands in the interface.
--
-- Not modelled: the brokers, the state machine of the circuit breakers, the login limiter and the
-- registry of the metrics, which are libraries; the fractions by which the mock provider rates a risk;
-- the schema of GraphQL; modules, configuration and the start of the services; the load test, a script;
-- the statistics of the cache; JSON round trips, the texts of messages and the logs. Two handlers that
-- run at once are not interleaved: a handler's statements run in sequence. A COMMIT that fails is taken as
-- not committed; a connection that is lost after the server has committed is left out.
pub mod Base
pub mod Shared
pub mod EventSourcing
pub mod Outbox
pub mod Customer
pub mod Transaction
pub mod Dlq
pub mod Bus
pub mod Ai
pub mod Cache
pub mod Gateway
pub mod Security
pub mod Health
pub mod Graph
pub mod Controllers
pub mod Metrics
pub mod Settlement
pub mod Tests
