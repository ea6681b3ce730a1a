-- ===== src/Llm.antt =====
-- internal/hivemind/service/llm: model failover and fallback.
pub mod Failover
pub mod Fallback
pub mod Models
pub mod Compat
pub mod Manager
pub mod Tests
