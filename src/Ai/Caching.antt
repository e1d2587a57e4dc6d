-- ===== src/Ai/Caching.antt =====
-- What is kept of the language model's answers (packages/ai-service/src/services/ai.service.ts,
-- packages/ai-service/src/subscribers/index.ts).
use banking_platform.Base.{
  ℕ, ==_refl, ◌≡◌, refl, ap, ◌∙◌, String, false, Option, none, some, List, [], ◌∷◌, ◌++◌, arith,
}
use banking_platform.Shared.Errors.{ok}
use banking_platform.Shared.Events.{Reason, TransactionCompletedPayload, DomainEvent}
use banking_platform.Shared.Database.{on_pool}
use banking_platform.Shared.Database.Progress.{calm}
use banking_platform.Shared.Tracker.{member, is_processed, mark_processed}
use banking_platform.Transaction.Repository.{Transaction}
use banking_platform.Ai.Retry.{LlmError, Answer, answered, failed}
use banking_platform.Ai.Prompts.{Printing}
use banking_platform.Ai.Prompts as Prompts
use banking_platform.Ai.Service.{
  Explanation, AiTables, api_explain, latest, prompt_of, explain_transaction, find_latest,
  store_explanation,
}
use banking_platform.Ai.Subscriber.{explain_event, on_transaction_completed}

latest-append :
    (id : ℕ) (es : List Explanation) (e : Explanation)
    → e.transaction_id ≡ some id
    → latest id es ≡ none
    → latest id (es ++ (e ∷ [])) ≡ some e
latest-append id [] e mine h = rw (mine) (rw (==_refl id) refl)
latest-append id (f ∷ es) e mine h = ground (arith, latest-append id es e mine)

-- The row that an explanation over HTTP leaves.
abbrev pub kept : ℕ → ℕ → ℕ → Transaction → String → Explanation
kept row_id now id t text = record {
  id = row_id;
  transaction_id = some id;
  event_subject = api_explain;
  source_account_id = t.source_account_id;
  explanation = text;
  created_at = now;
}

abbrev pub with_explanation : Explanation → AiTables → AiTables
with_explanation row db = record db { explanations = db.explanations ++ (row ∷ []) }

latest-append_other :
    (id : ℕ) (es fs : List Explanation) → latest id fs ≡ none → latest id (es ++ fs) ≡ latest id es
latest-append_other id [] fs h = h
latest-append_other id (e ∷ es) fs h = rw (latest-append_other id es fs h) refl

-- If no statement fails and the transaction has no explanation yet, the model's answer is stored
-- and returned. A later request, on tables that have got more explanations since but none of this
-- transaction (the subscriber stores one when it is completed or rejected), returns the same text
-- without a change, whatever the model and the transaction service would then answer.
pub explain_transaction-once :
    (p : Printing) (show : Reason → String) (llm llm' : String → Answer String)
    (fetch fetch' : ℕ → Option Transaction) (row_id row_id' now now' id : ℕ) (t : Transaction)
    (text : String) (db view later view' : AiTables) (others : List Explanation)
    → latest id db.explanations ≡ none
    → fetch id ≡ some t
    → llm (prompt_of p show t) ≡ answered text
    → later.explanations ≡ (with_explanation (kept row_id now id t text) db).explanations ++ others
    → latest id others ≡ none
    → (explain_transaction p show llm fetch row_id now id (calm db view) ≡ (
      ok (id, text),
      calm
          (with_explanation (kept row_id now id t text) db)
          (with_explanation (kept row_id now id t text) view),
    ))
      × (explain_transaction p show llm' fetch' row_id' now' id (calm later view')
          ≡ (ok (id, text), calm later view'))
unfolding explain_transaction find_latest store_explanation on_pool
explain_transaction-once p show llm llm' fetch fetch' row_id row_id' now now' id t text db view
      later view' others first found said grown none_of_it =
    let row = kept row_id now id t text in
    let cached : latest id later.explanations ≡ some row =
      ap (latest id) grown
      ∙ latest-append_other id (db.explanations ++ (row ∷ [])) others none_of_it
      ∙ latest-append id db.explanations row refl first in
    (rw (first, found, said) refl, rw (cached) refl)

-- If the model fails when a completed transaction is delivered, the event is marked all the same: no
-- explanation is stored, and a second delivery stores none either, whatever the model then answers.
pub on_transaction_completed-forgets :
    (p : Printing) (show : Reason → String) (llm llm' : String → Answer String)
    (row_id row_id' now now' : ℕ) (event : DomainEvent TransactionCompletedPayload) (e : LlmError)
    (db view view' : AiTables)
    → member event.id db.processed ≡ false
    → llm (
        Prompts.explain_completed p event.payload.type event.payload.amount event.payload.currency
          event.payload.source_account_id event.payload.target_account_id none)
      ≡ failed e
    → (on_transaction_completed p show llm row_id now event (calm db db) ≡ (
      ok tt,
      calm
          (record db { processed = event.id ∷ db.processed })
          (record db { processed = event.id ∷ db.processed }),
    ))
      × (on_transaction_completed p show llm' row_id' now' event
            (calm (record db { processed = event.id ∷ db.processed }) view')
          ≡ (ok tt, calm (record db { processed = event.id ∷ db.processed }) view'))
unfolding on_transaction_completed is_processed explain_event mark_processed on_pool
on_transaction_completed-forgets p show llm llm' row_id row_id' now now' event e db view view' new
      lost =
    (rw (new, lost, new) refl, rw (==_refl) refl)
