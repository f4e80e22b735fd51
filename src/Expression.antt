-- ===== src/Expression.antt =====
-- vegafusion-core/src/expression: the Vega expression language. Syntax and binding powers (ast/),
-- tokens (lexer.rs, ops.rs) and the Pratt parser (parser.rs).
pub mod Syntax
pub mod Power
pub mod Token
pub mod Result
pub mod Parser
pub mod Visitors
pub mod Print
pub mod ColumnUsage
pub mod DatasetsUsage
mod Tests
