-- ===== src/Expression/Parser.antt =====
-- parser.rs: a Pratt parser. `perform_parse` takes fuel, one unit for each token that is still to
-- come and one more; the functions that it calls take it, at less fuel, as an argument.
pub mod Atoms
pub mod Forms
pub mod Infix
pub mod Parse
pub mod Within
pub mod Branches
pub mod FormsWithin
pub mod InfixWithin
pub mod Fuel
pub mod Precedence
pub mod Arrays
