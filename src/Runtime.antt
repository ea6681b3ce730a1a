-- ===== src/Runtime.antt =====
-- internal/hivemind/service/agents: messages and sessions, and how a run keeps its context within
-- the window of its model.
pub mod Message
pub mod Tokens
pub mod Window
pub mod Pruner
pub mod Session
pub mod Compaction
pub mod RunState
pub mod Agent
pub mod Context
pub mod Tests
