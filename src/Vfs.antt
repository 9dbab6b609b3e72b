-- ===== src/Vfs.antt =====
-- The unified virtual file system: paths, mounts and the conflicts between them
-- (backend/internal/application/service/vfs_*.go).
pub mod Clean
pub mod Path
pub mod Mounts
pub mod Registry
