-- ===== src/Frontend.antt =====
-- From raw nodes to the document tree: crates/vectorless-compiler/src/parse/types.rs and
-- passes/frontend/build.rs.
pub mod Nodes
pub mod Tokens
pub mod Thinning
pub mod Tree
mod Tests
