-- ===== src/Prompt.antt =====
-- internal/hivemind/service/agents/domain/service/runtime/prompt: the system prompt of a run.
pub mod Types
pub mod Workspace
pub mod Pipeline
pub mod Sections
pub mod Tests
