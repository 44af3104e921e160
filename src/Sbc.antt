-- ===== src/Sbc.antt =====
-- The disk device type, from usr/sbc.c.
pub mod Ops
pub mod Protection
pub mod Rw
pub mod Bounds
pub mod Excludes
