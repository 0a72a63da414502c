-- ===== src/Pipeline.antt =====
-- The pass pipeline: crates/vectorless-compiler/src/pipeline and the trait of passes/mod.rs.
pub mod Policy
pub mod Stage
pub mod Order
pub mod Groups
pub mod Executor
pub mod Metrics
pub mod Context
pub mod Attempt
pub mod Merge
pub mod State
pub mod Sequential
pub mod Parallel
pub mod Run
mod Tests
mod RunTests
