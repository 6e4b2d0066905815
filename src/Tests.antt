-- ===== src/Tests.antt =====
-- The theorems at concrete inputs, and the code run on them.
mod Eviction
mod Reading
mod Locking
mod Managing
mod Statistics
mod Journaling
mod Uploading
mod Filing
mod Client
mod Working
mod Serving
mod Starting
