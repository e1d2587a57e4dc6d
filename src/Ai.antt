-- ===== src/Ai.antt =====
-- The AI service (packages/ai-service/src): the access to the language model with its limits and
-- retries, the texts that are sent, the explanations that are kept, and the subscribers.
pub mod Retry
pub mod Limiter
pub mod Pacing
pub mod Provider
pub mod Mock
pub mod Prompts
pub mod Service
pub mod Risk
pub mod Subscriber
pub mod Caching
