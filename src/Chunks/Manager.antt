-- ===== src/Chunks/Manager.antt =====
-- `ChunkManager`: the two caches, the table of downloads under way, and reads of a range. Calls are
-- run one after the other; a worker of the pool runs a download when its result is waited for.
pub mod Download
pub mod Schedule
pub mod Read
pub mod Coherent
pub mod Sharing
pub mod Pieces
pub mod Waiting
pub mod Ahead
pub mod Ranges
pub mod Invalidation
