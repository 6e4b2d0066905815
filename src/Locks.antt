-- ===== src/Locks.antt =====
-- src/infrastructure/concurrency/lock_manager.py: `RWLock`.
pub mod RwLock
pub mod Manager
