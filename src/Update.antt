-- ===== src/Update.antt =====
-- internal/update: versions, and the choice of the newest release
pub mod Version
pub mod Check
mod Tests
