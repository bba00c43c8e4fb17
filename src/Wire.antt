-- ===== src/Wire.antt =====
-- internal/wire: the frames of the local protocol.
pub mod Frame
mod Tests
