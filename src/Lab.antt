-- ===== src/Lab.antt =====
-- internal/app/lab: the definitions of labs.
pub mod Order
pub mod Definition
mod Tests
