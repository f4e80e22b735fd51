-- ===== src/Cache.antt =====
-- vegafusion-runtime/src/task_graph/cache.rs: the segmented LRU cache of node values.
pub mod Lru
pub mod Words
pub mod State
pub mod Methods
pub mod Recency
pub mod Rounds
pub mod Shrink
pub mod Balance
pub mod Promote
pub mod Reads
pub mod Writes
pub mod Drift
pub mod Runs
pub mod Store
pub mod StoreImpl
pub mod Flight
mod ListLru
mod Tests
