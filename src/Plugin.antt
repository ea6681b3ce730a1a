-- ===== src/Plugin.antt =====
-- internal/hivemind/service/plugin: the plugins of the server.
pub mod Types
pub mod Status
pub mod Slots
pub mod Registry
pub mod Framework
pub mod Tests
