-- ===== src/Tests/AiRuns.antt =====
-- The provider of the language model and the explanations (packages/ai-service/src).
use banking_platform.Base.{
  ℕ, leb, if◌then◌else◌, ◌≡◌, refl, String, Option, none, some, [], ◌∷◌, List,
}
use banking_platform.Base.Int.{ℤ, pos}
use banking_platform.Shared.Errors.{ok}
use banking_platform.Shared.Events.{Reason, withdrawal, transfer}
use banking_platform.Shared.Database.Progress.{calm}
use banking_platform.Transaction.Repository.{Transaction, new_transaction}
use banking_platform.Ai.Retry.{
  Answer, answered, failed, api_error, with_retry, retry_from, EndsFrom, with_retry-Ends,
}
use banking_platform.Ai.Limiter.{Call, try_at, end_of_call, new_limiter, run, try_acquire, release}
use banking_platform.Ai.Pacing.{IsPaced, run-IsPaced}
use banking_platform.Ai.Prompts.{Printing}
use banking_platform.Ai.Service.{AiTables, explain_transaction}
use banking_platform.Ai.Prompts as Prompts
use banking_platform.Ai.Mock.{explain_mock, default_answer}
use banking_platform.Ai.Risk.{RiskAnalysis, analyze_risk}
use banking_platform.Controllers.{failure, respond}
use banking_platform.Controllers.Ai.{handle_risk, post_risk}
use banking_platform.Controllers.Risks.{complete, input_of, post_risk-refuses}
use banking_platform.Ai.Caching.{kept, with_explanation, explain_transaction-once}

-- The third attempt succeeds.
abbrev third : ℕ → Answer String
third n = if leb 3 n then answered "Listo." else failed (api_error 503)

retried : (with_retry third 1000 3).delays ≡ 1000 ∷ 2000 ∷ []
unfolding with_retry retry_from
retried = refl

with_retry-Ends_example :
    EndsFrom third 0 3 (with_retry third 1000 3).answer (with_retry third 1000 3).calls
with_retry-Ends_example = with_retry-Ends third 1000 3

abbrev calls : List Call
calls = try_at 1000 ∷ try_at 1100 ∷ try_at 1600 ∷ try_at 2300 ∷ end_of_call ∷ try_at 2900 ∷ []

-- Two calls at once, half a second apart.
granted_times : (run calls [] (new_limiter 2 500)).0 ≡ 2900 ∷ 1600 ∷ 1000 ∷ []
unfolding run try_acquire release
granted_times = refl

run-IsPaced_example :
    IsPaced 2 500 (run calls [] (new_limiter 2 500)).0 (run calls [] (new_limiter 2 500)).1
run-IsPaced_example = run-IsPaced 2 500 calls

abbrev printing : Printing
printing = record { amount = λ z. "2.00"; fixed = λ z. "2.00"; id = λ n. "id"; count = λ n. "1" }

abbrev show : Reason → String
show r = "Fondos insuficientes"

abbrev withdrawal_5 : Transaction
withdrawal_5 = new_transaction 5 0 withdrawal (pos 200) "PEN" (some 1) none "key" none

abbrev says : String → Answer String
says prompt = answered "Un retiro de 2.00"

abbrev silent : String → Answer String
silent prompt = failed (api_error 500)

abbrev fetch : ℕ → Option Transaction
fetch id = some withdrawal_5

abbrev no_fetch : ℕ → Option Transaction
no_fetch id = none

abbrev tables : AiTables
tables = record { explanations = []; processed = [] }

abbrev explained : AiTables
explained = with_explanation (kept 8 1 5 withdrawal_5 "Un retiro de 2.00") tables

-- An explanation of another transaction has come in.
abbrev busier : AiTables
busier = with_explanation (kept 7 1 6 withdrawal_5 "Otro retiro") explained

explain_transaction-once_example :
    (explain_transaction printing show says fetch 8 1 5 (calm tables tables)
      ≡ (ok (5, "Un retiro de 2.00"), calm explained explained))
    × (explain_transaction printing show silent no_fetch 9 2 5 (calm busier tables)
        ≡ (ok (5, "Un retiro de 2.00"), calm busier tables))
explain_transaction-once_example =
    explain_transaction-once printing show says silent fetch no_fetch 8 9 1 2 5 withdrawal_5
      "Un retiro de 2.00" tables tables busier tables (kept 7 1 6 withdrawal_5 "Otro retiro" ∷ [])
      refl refl refl refl refl

abbrev unread : String → Option RiskAnalysis
unread raw = none

abbrev balance_of_any : ℕ → Option ℤ
balance_of_any id = some (pos 100)

post_risk-refuses_example :
    (handle_risk printing says unread balance_of_any 9
        (complete "withdrawal" (pos 200) "PEN" (some 1) none none)
        (calm tables tables)
      ≡ respond 201
          (analyze_risk printing says unread balance_of_any 9
            (input_of "withdrawal" (pos 200) "PEN" (some 1) none none))
          (calm tables tables))
    × (post_risk printing says unread balance_of_any 9
          (complete "withdrawal" (pos 200) "PEN" (some 1) none none)
          (calm tables tables)
        ≡ (failure 400 "HTTP_ERROR", calm tables tables))
post_risk-refuses_example =
    post_risk-refuses printing says unread balance_of_any 9 "withdrawal" (pos 200) "PEN" (some 1)
      none none (complete "withdrawal" (pos 200) "PEN" (some 1) none none) (calm tables tables) refl
      refl

-- The prompt is Spanish and has no `rejected`, so the mock tells that a rejected transfer was
-- processed correctly.
rejected_is_praised :
    explain_mock
      (λ prompt. prompt)
      (Prompts.explain_rejected printing transfer
        (pos 200)
        "USD"
        "Insufficient funds. Available: 1.00, required: 2.00")
    ≡ default_answer
unfolding explain_mock Prompts.explain_rejected
rejected_is_praised = refl
