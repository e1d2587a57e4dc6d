-- ===== src/Ai/Retry.antt =====
-- `withRetry` (packages/ai-service/src/providers/llm.provider.ts). How the call of each attempt ends
-- is a parameter. The random part of a delay, below 100 milliseconds, is left out.
use banking_platform.Base.{ℕ, zero, suc, ◌+◌, ◌*◌, ◌≤◌, ◌≡◌, refl, subst, List, [], ◌∷◌, arith}
use Prim.Native.Nat.{◌^◌}

-- Why a call of the language model fails: the status of an answer, or no answer.
pub data LlmError : Type 0 where
  api_error : (status : ℕ) → LlmError
  no_answer unknown : LlmError

pub data Answer {ℓ} (A : Type ℓ) : Type ℓ where
  answered : A → Answer A
  failed : LlmError → Answer A

-- How the loop ended, after how many calls and after which delays.
pub record Tries {ℓ} (A : Type ℓ) : Type ℓ where
  pub answer : Answer A
  pub calls : ℕ
  pub delays : List ℕ

module _ {ℓ} {A : Type ℓ} (fn : ℕ → Answer A) (base_delay_ms : ℕ) where
  -- One attempt; `rest` is the loop after it, `left` how many attempts it has.
  abbrev pub attempted : ℕ → ℕ → Answer A → Tries A → Tries A
  attempted left attempt (answered a) rest = record { answer = answered a; calls = 1; delays = [] }
  attempted zero attempt (failed e) rest = record { answer = failed e; calls = 1; delays = [] }
  attempted (suc left) attempt (failed e) rest = record {
    answer = rest.answer;
    calls = rest.calls + 1;
    delays = base_delay_ms * 2 ^ attempt ∷ rest.delays;
  }

  -- The loop from the attempt after `attempt` on.
  unfoldable pub retry_from : ℕ → ℕ → Tries A
  retry_from zero attempt = record { answer = failed unknown; calls = 0; delays = [] }
  retry_from (suc left) attempt =
      attempted left attempt (fn (attempt + 1)) (retry_from left (attempt + 1))

  unfoldable pub with_retry : ℕ → Tries A
  unfolding retry_from
  with_retry max_attempts = retry_from max_attempts 0

-- The attempts from the one after `from` on, as many as `n`, all fail.
abbrev pub AllFail {ℓ} : {A : Type ℓ} → (ℕ → Answer A) → ℕ → ℕ → Type ℓ
AllFail fn from zero = Unit
AllFail fn from (suc n) = ((e : LlmError) × (fn (from + 1) ≡ failed e)) × AllFail fn (from + 1) n

-- How `left` attempts after `from` may end.
abbrev pub EndsFrom {ℓ} : {A : Type ℓ} → (ℕ → Answer A) → ℕ → ℕ → Answer A → ℕ → Type ℓ
EndsFrom fn from left (answered a) calls =
    (n : ℕ) × (calls ≡ n + 1)
    × (calls ≤ left)
    × (fn (from + calls) ≡ answered a)
    × AllFail fn from n
EndsFrom fn from left (failed e) calls = (calls ≡ left) × AllFail fn from left

module _ {ℓ} {A : Type ℓ} (fn : ℕ → Answer A) (base_delay_ms : ℕ) where
  one_more :
      (left from : ℕ) (e : LlmError)
      → fn (from + 1) ≡ failed e
      → (answer : Answer A) (calls : ℕ) → EndsFrom fn (from + 1) left answer calls
      → EndsFrom fn from (suc left) answer (calls + 1)
  one_more left from e h (answered a) calls (n, count, within, found, before) = (
    suc n,
    omega arith,
    omega arith,
    subst (λ k. fn k ≡ answered a)
        (let k : from + 1 + calls ≡ from + (calls + 1) = omega arith in k) found,
    ((e, h), before),
  )
  one_more left from e h (failed e') calls (count, before) = (omega arith, ((e, h), before))

  retry_from-Ends :
      (left from : ℕ)
      → EndsFrom fn from left
          (retry_from fn base_delay_ms left from).answer
          (retry_from fn base_delay_ms left from).calls
  unfolding retry_from
  retry_from-Ends zero from = (refl, tt)
  retry_from-Ends (suc left) from =
      go left (fn (from + 1)) refl (retry_from fn base_delay_ms left (from + 1))
        (retry_from-Ends left (from + 1))
    where
      go :
          (left : ℕ) (o : Answer A)
          → fn (from + 1) ≡ o
          → (rest : Tries A) → EndsFrom fn (from + 1) left rest.answer rest.calls
          → EndsFrom fn from
              (suc left)
              (attempted fn base_delay_ms left from o rest).answer
              (attempted fn base_delay_ms left from o rest).calls
      go left (answered a) h rest ends = (0, refl, omega arith, h, tt)
      go zero (failed e) h rest ends = (refl, ((e, h), tt))
      go (suc left) (failed e) h rest ends =
          one_more (suc left) from e h rest.answer rest.calls ends

-- The retries end: the loop makes at most `maxAttempts` calls. If it returns an answer, this is the
-- one of its last call, and each call before failed; if it throws, it has made all the calls that it
-- may, and each of them failed.
pub with_retry-Ends {ℓ} :
    {A : Type ℓ} (fn : ℕ → Answer A) (base_delay_ms max_attempts : ℕ)
    → EndsFrom fn 0 max_attempts
        (with_retry fn base_delay_ms max_attempts).answer
        (with_retry fn base_delay_ms max_attempts).calls
unfolding with_retry
with_retry-Ends fn base_delay_ms max_attempts = retry_from-Ends fn base_delay_ms max_attempts 0
