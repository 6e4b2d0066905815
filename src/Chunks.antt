-- ===== src/Chunks.antt =====
-- src/infrastructure/cache/chunk_manager.py: `InMemoryChunkEvictionCache` and `ChunkManager`.
pub mod Eviction
pub mod Manager
