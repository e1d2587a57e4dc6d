-- ===== src/Controllers/Risks.antt =====
-- What the route `ai/risk` of packages/ai-service/src/ai answers.
use text.Mathlib.Text.{◌==◌ as str_eq}
use banking_platform.Base.{ℕ, ◌≡◌, refl, String, Bool, true, false, Option, none, some}
use banking_platform.Base.Int.{ℤ}
use banking_platform.Shared.Database.{Session}
use banking_platform.Ai.Retry.{Answer}
use banking_platform.Ai.Prompts.{Printing}
use banking_platform.Ai.Service.{AiTables}
use banking_platform.Ai.Risk.{RiskAnalysis, RiskInput, analyze_risk}
use banking_platform.Controllers.{failure, respond, catch_exception}
use banking_platform.Controllers.Ai.{
  RiskAnalysisDto, is_risk_dto, whitelisted, handle_risk, post_risk, risk_input,
}

-- A body with the three properties that the handler asks for.
abbrev pub complete : String → ℤ → String → Option ℕ → Option ℕ → Option String → RiskAnalysisDto
complete type amount currency source target description = record {
  type = some type;
  amount = some amount;
  currency = some currency;
  source_account_id = source;
  target_account_id = target;
  description = description;
}

abbrev pub input_of : String → ℤ → String → Option ℕ → Option ℕ → Option String → RiskInput
input_of type amount currency source target description = record {
  type = type;
  amount = amount;
  currency = currency;
  source_account_id = source;
  target_account_id = target;
  description = description;
}

risk_input-none :
    (type currency : Option String) (dto : RiskAnalysisDto)
    → risk_input type none currency dto ≡ none
risk_input-none none currency dto = refl
risk_input-none (some type) currency dto = refl

module _ (p : Printing) (llm : String → Answer String) (parse : String → Option RiskAnalysis)
    (balance_of : ℕ → Option ℤ) (now : ℕ) where
  refused :
      (valid : Bool) (dto : RiskAnalysisDto) (s : Session AiTables)
      → is_risk_dto dto ≡ valid
      → post_risk p llm parse balance_of now dto s ≡ (failure 400 "HTTP_ERROR", s)
  unfolding post_risk handle_risk catch_exception
  refused true dto s valid =
      rw (valid, risk_input-none dto.type dto.currency (whitelisted dto)) refl
  refused false dto s valid = rw valid refl

  -- The handler would analyse the risk of a body with a type, an amount and a currency, but behind the
  -- validation pipe the route answers every body with 400 and leaves the session as it was.
  pub post_risk-refuses :
      (type : String) (amount : ℤ) (currency : String) (source target : Option ℕ)
      (description : Option String) (dto : RiskAnalysisDto) (s : Session AiTables)
      → str_eq type "" ≡ false
      → str_eq currency "" ≡ false
      → (handle_risk p llm parse balance_of now
            (complete type amount currency source target description)
            s
          ≡ respond 201
              (analyze_risk p llm parse balance_of now
                (input_of type amount currency source target description))
              s)
        × (post_risk p llm parse balance_of now dto s ≡ (failure 400 "HTTP_ERROR", s))
  unfolding handle_risk
  post_risk-refuses type amount currency source target description dto s typed priced =
      (rw (typed, priced) refl, refused (is_risk_dto dto) dto s refl)
