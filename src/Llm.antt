-- ===== src/Llm.antt =====
-- The clients of language models (internal/llm): the retry of a request.
pub mod Retry
pub mod Sending
pub mod Retried
mod Examples
