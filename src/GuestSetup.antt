-- ===== src/GuestSetup.antt =====
-- internal/guestsetup: recipes that run on a guest over SSH, in stages.
pub mod Receipt
pub mod Stages
pub mod Checks
pub mod Execute
mod Tests
