-- ===== src/Llm.antt =====
-- The middleware for language models of internal/llm/middleware.
pub mod Limits
pub mod Credits
pub mod Retry
pub mod Usage
