-- ===== src/Cache/Flight.antt =====
-- `get_or_try_insert_with` and `spawn_initializer`: concurrent callers, at the granularity of the
-- awaits.
pub mod System
pub mod Heap
pub mod Safety
mod Steps
mod Reached
mod Owners
pub mod Progress
mod Ranks
pub mod Turns
mod Tests
