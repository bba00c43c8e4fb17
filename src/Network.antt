-- ===== src/Network.antt =====
-- internal/app/network: the search for a free subnet, and the profiles of managed networks of
-- internal/backend/networkxml.
pub mod Prefix
pub mod Config
pub mod Allocation
pub mod Intent
pub mod Nics
pub mod Managed
mod Tests
