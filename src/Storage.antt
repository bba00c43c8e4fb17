-- ===== src/Storage.antt =====
-- internal/app/storage: the volumes, their backing chains, and what may be deleted.
pub mod Graph
mod Tests
