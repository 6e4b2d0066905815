-- ===== src/Fuse.antt =====
-- src/fuse/operations/fuse_ops.py: `FuseOps`, the operations of the file system over the caches,
-- the uploads and the local files. Calls run one after the other.
pub mod State
pub mod Paths
pub mod Handles
pub mod Changes
