-- ===== src/Shared/Events.antt =====
-- The events between the services (packages/shared/src/events/index.ts): subjects, payloads and the
-- envelope. A UUID is a number; `string | null` is an `Option`; amounts are whole cents.
use banking_platform.Base.{ℕ, String, Option}
use banking_platform.Base.Int.{ℤ}
use banking_platform.Shared.Errors.{Error}

pub data TransactionType : Type 0 where
  deposit withdrawal transfer : TransactionType

-- `Subjects`.
pub data Subject : Type 0 where
  client_created account_created balance_updated : Subject
  transaction_requested transaction_completed transaction_rejected : Subject

-- Why the saga rejects a transaction.
pub data Reason : Type 0 where
  source_not_found target_not_found : (account_id : ℕ) → Reason
  insufficient_funds : (available required : ℤ) → Reason
  processing_error : Error → Reason

pub record ClientCreatedPayload : Type 0 where
  pub client_id : ℕ
  pub name : String
  pub email : String
  pub document_number : String

pub record AccountCreatedPayload : Type 0 where
  pub account_id : ℕ
  pub client_id : ℕ
  pub account_number : String
  pub currency : String
  pub initial_balance : ℤ

-- A number of an event: an amount as it is, or the `number` that JavaScript computes from two
-- amounts, a double which need not be the exact sum or difference (0.1 + 0.2).
pub data Computed : Type 0 where
  amount_itself : ℤ → Computed
  sum difference : (first second : ℤ) → Computed

pub record BalanceUpdatedPayload : Type 0 where
  pub account_id : ℕ
  pub previous_balance : Computed
  pub new_balance : ℤ
  pub transaction_id : ℕ

pub record TransactionRequestedPayload : Type 0 where
  pub transaction_id : ℕ
  pub type : TransactionType
  pub amount : ℤ
  pub currency : String
  pub source_account_id : Option ℕ
  pub target_account_id : Option ℕ
  pub idempotency_key : String
  pub description : Option String

pub record TransactionCompletedPayload : Type 0 where
  pub transaction_id : ℕ
  pub type : TransactionType
  pub amount : ℤ
  pub currency : String
  pub source_account_id : Option ℕ
  pub target_account_id : Option ℕ
  pub description : Option String

pub record TransactionRejectedPayload : Type 0 where
  pub transaction_id : ℕ
  pub type : TransactionType
  pub amount : ℤ
  pub reason : Reason
  pub source_account_id : Option ℕ
  pub target_account_id : Option ℕ

-- `EventMap`: the payload of each subject.
pub data Payload : Type 0 where
  client_created : ClientCreatedPayload → Payload
  account_created : AccountCreatedPayload → Payload
  balance_updated : BalanceUpdatedPayload → Payload
  transaction_requested : TransactionRequestedPayload → Payload
  transaction_completed : TransactionCompletedPayload → Payload
  transaction_rejected : TransactionRejectedPayload → Payload

unfoldable pub subject_of : Payload → Subject
subject_of (Payload.client_created _) = Subject.client_created
subject_of (Payload.account_created _) = Subject.account_created
subject_of (Payload.balance_updated _) = Subject.balance_updated
subject_of (Payload.transaction_requested _) = Subject.transaction_requested
subject_of (Payload.transaction_completed _) = Subject.transaction_completed
subject_of (Payload.transaction_rejected _) = Subject.transaction_rejected

-- `DomainEvent`, with the payload of its subject.
pub record DomainEvent (P : Type 0) : Type 0 where
  pub id : ℕ
  pub timestamp : ℕ
  pub correlation_id : Option ℕ
  pub causation_id : Option ℕ
  pub payload : P
