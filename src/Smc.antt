-- ===== src/Smc.antt =====
-- The medium changer, usr/smc.c.
pub mod Slots
pub mod Move
pub mod Branches
pub mod Effects
pub mod Media
pub mod Moved
