-- ===== src/Memory.antt =====
-- internal/hivemind/service/plugin/builtin/memory-core: the memory of documents.
pub mod Chunk
pub mod Hybrid
pub mod Tests
