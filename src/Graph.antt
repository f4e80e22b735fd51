-- ===== src/Graph.antt =====
-- vegafusion-core/src/task_graph/graph.rs: the task graph, whose fingerprints tell what is out of
-- date.
pub mod State
pub mod Nodes
pub mod Fingerprints
pub mod Update
pub mod Sorted
pub mod Changes
pub mod Identity
pub mod Reports
pub mod Agree
pub mod Unaffected
pub mod Ends
pub mod Keys
pub mod Petgraph
pub mod Build
pub mod Chains
pub mod Mapping
mod Tests
