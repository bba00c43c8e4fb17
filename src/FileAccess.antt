-- ===== src/FileAccess.antt =====
-- internal/backend/fileaccess: the access lists of managed ordinary files.
pub mod Acl
mod Tests
