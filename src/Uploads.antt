-- ===== src/Uploads.antt =====
-- src/infrastructure/drive/upload_manager.py and circuit_breaker.py: the queue of uploads.
pub mod Jobs
pub mod Journal
pub mod Durability
pub mod Saving
pub mod Retries
pub mod Pool
