-- ===== src/Protection.antt =====
-- internal/app/protection: the schedule of a backup policy
pub mod Cron
mod Tests
