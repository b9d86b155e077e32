-- ===== src/Fs.antt =====
-- The scoped file system tools, crates/omne-fs/src.
pub mod Error
pub mod Policy
pub mod Paths
pub mod Redaction
pub mod Traversal
pub mod Context
pub mod Resolve
pub mod Leaf
pub mod Edit
pub mod Patch
pub mod Stat
mod Tests
