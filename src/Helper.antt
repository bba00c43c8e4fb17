-- ===== src/Helper.antt =====
-- internal/helper: what the privileged helper is asked, and which requests it serves.
pub mod Request
pub mod Network
pub mod Auxiliary
pub mod Authorization
pub mod Inspection
mod Tests
