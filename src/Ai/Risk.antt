-- ===== src/Ai/Risk.antt =====
-- `AIService.analyzeRisk` (packages/ai-service/src/services/ai.service.ts). The language model, the
-- balance that the customer service tells and the reading of the model's JSON are parameters. Times
-- are numbers of hours.
use banking_platform.Base.{
  ℕ, ◌+◌, ltb, String, Bool, ◌&&◌, Option, none, some, List, [], ◌∷◌, select, length,
}
use banking_platform.Base.Int.{ℤ}
use banking_platform.Shared.Database.{Action, pure, ◌>>=◌, on_pool, try_catch}
use banking_platform.Ai.Retry.{Answer}
use banking_platform.Ai.Prompts as Prompts
use banking_platform.Ai.Prompts.{Printing}
use banking_platform.Ai.Service.{AiTables, Explanation, is_id, answer_or_throw}

pub data RiskLevel : Type 0 where
  low medium high : RiskLevel

pub record RiskAnalysis : Type 0 where
  pub risk_level : RiskLevel
  pub score : ℕ
  pub reasons : List String
  pub recommendation : String

abbrev pub risk_by_default : RiskAnalysis
risk_by_default = record {
  risk_level = low;
  score = 10;
  reasons = "No se pudo analizar el riesgo automáticamente" ∷ [];
  recommendation = "Revisión manual recomendada";
}

abbrev pub risk_or_default : Option RiskAnalysis → RiskAnalysis
risk_or_default none = risk_by_default
risk_or_default (some r) = r

pub record RiskInput : Type 0 where
  pub type : String
  pub amount : ℤ
  pub currency : String
  pub source_account_id : Option ℕ
  pub target_account_id : Option ℕ
  pub description : Option String

abbrev pub is_recent : ℕ → ℕ → Explanation → Bool
is_recent now id e = is_id e.source_account_id id && ltb now (e.created_at + 24)

module _ (p : Printing) (llm : String → Answer String) (parse : String → Option RiskAnalysis)
    (balance_of : ℕ → Option ℤ) (now : ℕ) where
  -- `recentTransactionCount`; a failure of the query leaves it undefined.
  unfoldable pub count_recent : ℕ → Action AiTables (Option ℕ)
  count_recent id =
      try_catch
        (on_pool (λ db. some (some (length (select (is_recent now id) db.explanations)), db)))
        (λ _. pure none)

  abbrev pub analyze_with : RiskInput → Option ℤ → Option ℕ → Action AiTables RiskAnalysis
  analyze_with input balance recent = do
    raw ← answer_or_throw (
        llm (
          Prompts.analyze_risk p input.type input.amount input.currency input.source_account_id
            input.target_account_id balance recent input.description))
    pure (risk_or_default (parse raw))

  abbrev pub analyze_from : Option ℕ → RiskInput → Action AiTables RiskAnalysis
  analyze_from none input = analyze_with input none none
  analyze_from (some id) input = do
    recent ← count_recent id
    analyze_with input (balance_of id) recent

  -- `analyzeRisk`, without the identifier that it copies.
  unfoldable pub analyze_risk : RiskInput → Action AiTables RiskAnalysis
  unfolding count_recent
  analyze_risk input = analyze_from input.source_account_id input
