-- ===== src/Scheduler.antt =====
-- internal/hivemind/service/scheduler: the task queue and the selection of nodes.
pub mod Types
pub mod Builder
pub mod Heap
pub mod Queue
pub mod Selector
pub mod Insertion
pub mod Tests
pub mod Monitor
pub mod Stats
pub mod Core
