-- ===== src/Controllers/Ai.antt =====
-- `AIController` (packages/ai-service/src/ai) and its DTO classes. Identifiers are UUIDs, and the data
-- of an event comes printed as JSON.
use text.Mathlib.Text.{◌==◌ as str_eq}
use banking_platform.Base.{
  ℕ, String, Bool, true, false, ◌&&◌, Option, none, some, List, if◌then◌else◌,
}
use banking_platform.Base.Int.{ℤ}
use banking_platform.Shared.Events.{Reason}
use banking_platform.Shared.Database.{Session}
use banking_platform.Transaction.Repository.{Transaction}
use banking_platform.Ai.Retry.{Answer}
use banking_platform.Ai.Prompts.{Printing}
use banking_platform.Ai.Service.{
  AiTables, Explanation, explain_transaction, summarize, translate_event, get_explanations,
}
use banking_platform.Ai.Risk.{RiskAnalysis, RiskInput, analyze_risk}
use banking_platform.Controllers.{HttpAnswer, respond, validated, catch_exception, http_exception}

-- `RiskAnalysisDto`; a property that is missing is `none`.
pub record RiskAnalysisDto : Type 0 where
  pub type : Option String
  pub amount : Option ℤ
  pub currency : Option String
  pub source_account_id : Option ℕ
  pub target_account_id : Option ℕ
  pub description : Option String

-- `whitelist: true` of the validation pipe, by its documentation: a property of the class without a
-- decorator is removed from the body. Of this class that is `amount`.
abbrev pub whitelisted : RiskAnalysisDto → RiskAnalysisDto
whitelisted dto = record dto { amount = none }

abbrev pub is_text : Option String → Bool
is_text none = false
is_text (some s) = true

-- The decorators `@IsString()`.
abbrev pub is_risk_dto : RiskAnalysisDto → Bool
is_risk_dto dto = is_text dto.type && is_text dto.currency

-- The input of the service; the first of the three that is missing ends the handler.
abbrev pub risk_input :
    Option String → Option ℤ → Option String → RiskAnalysisDto → Option RiskInput
risk_input none amount currency dto = none
risk_input (some type) none currency dto = none
risk_input (some type) (some amount) none dto = none
risk_input (some type) (some amount) (some currency) dto =
    if str_eq type ""
    then none
    else if str_eq currency ""
    then none
    else some (record {
      type = type;
      amount = amount;
      currency = currency;
      source_account_id = dto.source_account_id;
      target_account_id = dto.target_account_id;
      description = dto.description;
    })

module _ (p : Printing) (llm : String → Answer String) where
  unfoldable pub post_explain :
      (Reason → String)
      → (ℕ → Option Transaction)
      → (row_id now id : ℕ) → Session AiTables
      → HttpAnswer (ℕ × String) × Session AiTables
  post_explain show fetch row_id now id =
      respond 201 (explain_transaction p show llm fetch row_id now id)

  unfoldable pub post_summary :
      (ℕ → Option (List Transaction))
      → ℕ
      → Session AiTables
      → HttpAnswer (ℕ × String) × Session AiTables
  post_summary fetch account_id = respond 201 (summarize p llm fetch account_id)

  unfoldable pub post_translate_event :
      String → String → Session AiTables → HttpAnswer String × Session AiTables
  post_translate_event event_subject event_data =
      respond 201 (translate_event llm event_subject event_data)

  module _ (parse : String → Option RiskAnalysis) (balance_of : ℕ → Option ℤ) (now : ℕ) where
    abbrev pub analyzed_or_refused :
        Option RiskInput → Session AiTables → HttpAnswer RiskAnalysis × Session AiTables
    analyzed_or_refused none s = (catch_exception (http_exception 400), s)
    analyzed_or_refused (some input) s =
        respond 201 (analyze_risk p llm parse balance_of now input) s

    -- The body of the handler.
    unfoldable pub handle_risk :
        RiskAnalysisDto → Session AiTables → HttpAnswer RiskAnalysis × Session AiTables
    handle_risk dto = analyzed_or_refused (risk_input dto.type dto.amount dto.currency dto)

    -- The route: the pipe, then the handler.
    unfoldable pub post_risk :
        RiskAnalysisDto → Session AiTables → HttpAnswer RiskAnalysis × Session AiTables
    unfolding handle_risk
    post_risk dto = validated (is_risk_dto dto) (handle_risk (whitelisted dto))

unfoldable pub get_explanations_of :
    ℕ → Session AiTables → HttpAnswer (List Explanation) × Session AiTables
get_explanations_of id = respond 200 (get_explanations id)
