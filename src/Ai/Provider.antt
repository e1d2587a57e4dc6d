-- ===== src/Ai/Provider.antt =====
-- The providers of packages/ai-service/src/providers/llm.provider.ts. How `fetch` answers in each
-- attempt is a parameter.
use Prim.Native.String.{◌++◌ as ◌<>◌}
use banking_platform.Base.{
  ℕ, ◌==◌, leb, ltb, String, Bool, true, false, ◌&&◌, ◌||◌, List, [], ◌∷◌, if◌then◌else◌,
}
use banking_platform.Ai.Retry.{api_error, no_answer, Answer, answered, failed, Tries, with_retry}

-- A block of an answer: a text, or anything else.
pub data Block : Type 0 where
  text : String → Block
  other : Block

pub data Fetched : Type 0 where
  response : (status : ℕ) → List Block → Fetched
  no_response : Fetched

-- The text blocks with line ends between them.
abbrev pub join : List String → String
join [] = ""
join (s ∷ []) = s
join (s ∷ t ∷ rest) = s <> "\n" <> join (t ∷ rest)

abbrev pub texts : List Block → List String
texts [] = []
texts (text s ∷ blocks) = s ∷ texts blocks
texts (other ∷ blocks) = texts blocks

-- The function that is retried.
unfoldable pub read_response : Fetched → Answer String
read_response no_response = failed no_answer
read_response (response status blocks) =
    if status == 429 || leb 500 status
    then failed (api_error status)
    else if leb 200 status && ltb status 300
    then answered (join (texts blocks))
    else failed (api_error status)

-- `AnthropicLLMProvider.explain` between `acquire` and `release`.
unfoldable pub explain : (ℕ → Fetched) → Tries String
unfolding with_retry read_response
explain fetch = with_retry (λ attempt. read_response (fetch attempt)) 1000 3

-- `FallbackLLMProvider.explain` by what its two providers answer.
abbrev pub explain_or : {A : Type 0} → Answer A → Answer A → Answer A
explain_or (answered a) fallback = answered a
explain_or (failed e) fallback = fallback

pub data Provider : Type 0 where
  mock anthropic_or_mock : Provider

-- `createLLMProvider` by whether the configuration names Anthropic and has a key.
unfoldable pub create_provider : Bool → Bool → Provider
create_provider true true = anthropic_or_mock
create_provider true false = mock
create_provider false has_key = mock
