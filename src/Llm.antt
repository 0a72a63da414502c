-- ===== src/Llm.antt =====
-- Calls of language models: crates/vectorless-llm/src.
pub mod Error
pub mod Fallback
pub mod Executor
mod Tests
