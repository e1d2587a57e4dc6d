-- ===== src/Ai/Subscriber.antt =====
-- `AISubscriberService` (packages/ai-service/src/subscribers/index.ts). An analysis of risk is only
-- logged.
use banking_platform.Base.{ℕ, String, Bool, true, false, Option, none, some}
use banking_platform.Shared.Events.{
  Reason, TransactionCompletedPayload, TransactionRejectedPayload, TransactionRequestedPayload,
  DomainEvent,
}
use banking_platform.Shared.Database.{Action, pure, ◌>>=◌, ◌>>◌, try_catch, pool}
use banking_platform.Shared.Tracker.{is_processed, mark_processed}
use banking_platform.Base.Int.{ℤ}
use banking_platform.Ai.Retry.{Answer}
use banking_platform.Ai.Prompts as Prompts
use banking_platform.Ai.Prompts.{Printing}
use banking_platform.Ai.Service.{
  AiTables, ai_processed, Origin, completed_event, rejected_event, store_explanation,
  answer_or_throw,
}
use banking_platform.Ai.Risk.{RiskAnalysis, RiskInput, analyze_risk}

module _ (p : Printing) (show : Reason → String) (llm : String → Answer String)
    (row_id now : ℕ) where
  -- The `try` and what follows it, by the prompt and by what is stored.
  unfoldable pub explain_event : ℕ → ℕ → Origin → Option ℕ → String → Action AiTables (Unit {0})
  unfolding store_explanation mark_processed
  explain_event event_id transaction_id origin source prompt = do
    try_catch
        (do
          explanation ← answer_or_throw (llm prompt)
          store_explanation row_id now (some transaction_id) origin source explanation)
        (λ _. pure tt)
    mark_processed pool event_id

  abbrev pub unless_seen : Bool → Action AiTables (Unit {0}) → Action AiTables (Unit {0})
  unless_seen true handle = pure tt
  unless_seen false handle = handle

  unfoldable pub on_transaction_completed :
      DomainEvent TransactionCompletedPayload → Action AiTables (Unit {0})
  unfolding is_processed explain_event
  on_transaction_completed event = do
    seen ← is_processed event.id
    unless_seen seen (
        explain_event event.id event.payload.transaction_id completed_event
          event.payload.source_account_id
          (Prompts.explain_completed p event.payload.type event.payload.amount
            event.payload.currency event.payload.source_account_id event.payload.target_account_id
            none))

  -- The event has no currency, so it is 'USD'.
  unfoldable pub on_transaction_rejected :
      DomainEvent TransactionRejectedPayload → Action AiTables (Unit {0})
  unfolding is_processed explain_event
  on_transaction_rejected event = do
    seen ← is_processed event.id
    unless_seen seen (
        explain_event event.id event.payload.transaction_id rejected_event
          event.payload.source_account_id
          (Prompts.explain_rejected p event.payload.type event.payload.amount "USD"
            (show event.payload.reason)))

  abbrev pub analyzed :
      (String → Option RiskAnalysis) → (ℕ → Option ℤ) → RiskInput → Action AiTables (Unit {0})
  analyzed parse balance_of input = do _ ← analyze_risk p llm parse balance_of now input; pure tt

  unfoldable pub on_transaction_requested :
      (String → Option RiskAnalysis)
      → (ℕ → Option ℤ)
      → DomainEvent TransactionRequestedPayload
      → Action AiTables (Unit {0})
  unfolding analyze_risk
  on_transaction_requested parse balance_of event =
      try_catch
        (analyzed parse balance_of (record {
          type = Prompts.type_name event.payload.type;
          amount = event.payload.amount;
          currency = event.payload.currency;
          source_account_id = event.payload.source_account_id;
          target_account_id = event.payload.target_account_id;
          description = event.payload.description;
        }))
        (λ _. pure tt)
