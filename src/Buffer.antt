-- ===== src/Buffer.antt =====
-- toolkit/buffer
pub mod Ring
pub mod RingUnbounded
pub mod Backlog
