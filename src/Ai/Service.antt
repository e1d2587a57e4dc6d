-- ===== src/Ai/Service.antt =====
-- `AIService` (packages/ai-service/src/services/ai.service.ts) on the tables of packages/ai-service/src/
-- models/database.ts. The language model, the HTTP calls of the other services and the reading of the
-- model's JSON are parameters. Times are numbers of hours.
use banking_platform.Base.{
  ℕ, refl, ◌==◌, leb, ltb, String, Bool, true, false, ◌&&◌, Option, none, some, List, [], ◌∷◌, ◌++◌,
  select, length, if◌then◌else◌,
}
use banking_platform.Base.Int.{ℤ, pos, ◌+ℤ◌}
use banking_platform.Shared.Errors.{Resource, not_found, llm_failed}
use banking_platform.Shared.Events.{TransactionType, deposit, withdrawal, transfer, Reason}
use banking_platform.Shared.Database.{Statement, Action, pure, throw, ◌>>=◌, ◌>>◌, on_pool}
use banking_platform.Shared.Tracker.{HasProcessed}
use banking_platform.Transaction.Repository.{
  Transaction, TransactionStatus, pending, completed, rejected,
}
use banking_platform.Ai.Retry.{Answer, answered, failed}
use banking_platform.Ai.Prompts as Prompts
use banking_platform.Ai.Prompts.{Printing}

-- `event_subject`: a subject of the bus, or a request over HTTP.
pub data Origin : Type 0 where
  api_explain completed_event rejected_event : Origin

-- A row of `ai_explanations`. Of `event_data` the code only reads the source account.
pub record Explanation : Type 0 where
  pub id : ℕ
  pub transaction_id : Option ℕ
  pub event_subject : Origin
  pub source_account_id : Option ℕ
  pub explanation : String
  pub created_at : ℕ

pub record AiTables : Type 0 where
  pub explanations : List Explanation
  pub processed : List ℕ

instance abbrev pub ai_processed : HasProcessed AiTables
ai_processed = record {
  processed = λ db. db.processed;
  set_processed = λ ids db. record db { processed = ids };
  processed-set = λ ids db. refl;
}

abbrev pub is_id : Option ℕ → ℕ → Bool
is_id none id = false
is_id (some i) id = i == id

-- `ORDER BY created_at DESC LIMIT 1`.
abbrev pub later_of : Explanation → Option Explanation → Explanation
later_of e none = e
later_of e (some f) = if ltb e.created_at f.created_at then f else e

abbrev pub latest : ℕ → List Explanation → Option Explanation
latest id [] = none
latest id (e ∷ es) =
    let rest = latest id es in if is_id e.transaction_id id then some (later_of e rest) else rest

abbrev pub insert_row : Explanation → Statement AiTables (Unit {0})
insert_row row db = some (tt, record db { explanations = db.explanations ++ (row ∷ []) })

-- `storeEventExplanation`; `id` is what `gen_random_uuid()` returns.
unfoldable pub store_explanation :
    ℕ → ℕ → Option ℕ → Origin → Option ℕ → String → Action AiTables (Unit {0})
store_explanation id now transaction_id origin source explanation = on_pool (
    insert_row (record {
      id = id;
      transaction_id = transaction_id;
      event_subject = origin;
      source_account_id = source;
      explanation = explanation;
      created_at = now;
    }))

unfoldable pub find_latest : ℕ → Action AiTables (Option Explanation)
find_latest id = on_pool (λ db. some (latest id db.explanations, db))

abbrev pub insert_newest : Explanation → List Explanation → List Explanation
insert_newest e [] = e ∷ []
insert_newest e (f ∷ fs) =
    let rest = insert_newest e fs in if leb f.created_at e.created_at then e ∷ f ∷ fs else f ∷ rest

abbrev pub newest_first : List Explanation → List Explanation
newest_first [] = []
newest_first (e ∷ es) = insert_newest e (newest_first es)

unfoldable pub get_explanations : ℕ → Action AiTables (List Explanation)
get_explanations id =
    on_pool
      (λ db. some (newest_first (select (λ e. is_id e.transaction_id id) db.explanations), db))

-- What the model answers to a prompt; a failure throws.
abbrev pub answer_or_throw : {A : Type 0} → Answer A → Action AiTables A
answer_or_throw (answered a) = pure a
answer_or_throw (failed e) = throw llm_failed

abbrev pub reason_or_default : (Reason → String) → Option Reason → String
reason_or_default show none = "Motivo no especificado"
reason_or_default show (some r) = show r

module _ (p : Printing) (show : Reason → String) where
  abbrev pub prompt_by : TransactionStatus → Transaction → String
  prompt_by rejected t =
      Prompts.explain_rejected p t.type t.amount t.currency (reason_or_default show t.reason)
  prompt_by pending t =
      Prompts.explain_completed p t.type t.amount t.currency t.source_account_id t.target_account_id
        t.description
  prompt_by completed t =
      Prompts.explain_completed p t.type t.amount t.currency t.source_account_id t.target_account_id
        t.description

  abbrev pub prompt_of : Transaction → String
  prompt_of t = prompt_by t.status t

  module _ (llm : String → Answer String) (fetch : ℕ → Option Transaction) (row_id now : ℕ) where
    abbrev pub explain_fetched : ℕ → Option Transaction → Action AiTables (ℕ × String)
    explain_fetched id none = throw (not_found Resource.transaction id)
    explain_fetched id (some t) = do
      explanation ← answer_or_throw (llm (prompt_of t))
      store_explanation row_id now (some id) api_explain t.source_account_id explanation
      pure (id, explanation)

    abbrev pub explain_unless_cached : ℕ → Option Explanation → Action AiTables (ℕ × String)
    explain_unless_cached id (some e) = pure (id, e.explanation)
    explain_unless_cached id none = explain_fetched id (fetch id)

    unfoldable pub explain_transaction : ℕ → Action AiTables (ℕ × String)
    unfolding find_latest store_explanation
    explain_transaction id = do cached ← find_latest id; explain_unless_cached id cached

-- The sums of `summarizeAccount`.
abbrev pub is_completed : TransactionStatus → Bool
is_completed completed = true
is_completed pending = false
is_completed rejected = false

abbrev pub is_rejected : TransactionStatus → Bool
is_rejected rejected = true
is_rejected pending = false
is_rejected completed = false

abbrev pub is_deposit : TransactionType → Bool
is_deposit deposit = true
is_deposit withdrawal = false
is_deposit transfer = false

abbrev pub is_withdrawal : TransactionType → Bool
is_withdrawal withdrawal = true
is_withdrawal deposit = false
is_withdrawal transfer = false

abbrev pub is_transfer : TransactionType → Bool
is_transfer transfer = true
is_transfer deposit = false
is_transfer withdrawal = false

abbrev pub sum_from : ℤ → List Transaction → ℤ
sum_from total [] = total
sum_from total (t ∷ ts) = sum_from (total +ℤ t.amount) ts

-- `transactions.filter(test).reduce((sum, t) => sum + t.amount, 0)`.
abbrev pub total_of : (Transaction → Bool) → List Transaction → ℤ
total_of test ts = sum_from (pos 0) (select test ts)

module _ (p : Printing) (llm : String → Answer String) where
  abbrev pub summary_prompt : ℕ → List Transaction → String
  summary_prompt account_id ts =
      Prompts.summarize_account p account_id
        (total_of (λ t. is_deposit t.type && is_completed t.status) ts)
        (total_of (λ t. is_withdrawal t.type && is_completed t.status) ts)
        (total_of
          (λ t. is_transfer t.type && is_completed t.status && is_id t.source_account_id account_id)
          ts)
        (total_of
          (λ t. is_transfer t.type && is_completed t.status && is_id t.target_account_id account_id)
          ts)
        (length ts) (length (select (λ t. is_rejected t.status) ts))

  abbrev pub summarize_fetched : ℕ → Option (List Transaction) → Action AiTables (ℕ × String)
  summarize_fetched account_id none = throw (not_found Resource.account account_id)
  summarize_fetched account_id (some []) =
      pure (account_id, "Esta cuenta no tiene transacciones registradas aún.")
  summarize_fetched account_id (some (t ∷ ts)) = do
    summary ← answer_or_throw (llm (summary_prompt account_id (t ∷ ts)))
    pure (account_id, summary)

  -- `summarizeAccount`, by what the transaction service lists.
  unfoldable pub summarize : (ℕ → Option (List Transaction)) → ℕ → Action AiTables (ℕ × String)
  summarize fetch account_id = summarize_fetched account_id (fetch account_id)

-- `translateEvent`; the data comes printed as JSON.
unfoldable pub translate_event : (String → Answer String) → String → String → Action AiTables String
translate_event llm event_subject event_data =
    answer_or_throw (llm (Prompts.translate_event event_subject event_data))
