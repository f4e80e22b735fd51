-- ===== src/Expression/Visitors.antt =====
-- visitors.rs, and the traversal `walk` of ast/expression.rs.
pub mod Walk
pub mod Variables
pub mod Mentions
pub mod Members
pub mod Supported
pub mod Checks
pub mod Change
pub mod Spans
mod Tests
