-- ===== src/Scope.antt =====
-- vegafusion-core/src/task_graph/scope.rs: the tree of scopes in which variables are resolved.
pub mod Variable
pub mod Tree
pub mod Resolve
pub mod Edit
pub mod Lookup
pub mod Innermost
mod Tests
