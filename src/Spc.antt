-- ===== src/Spc.antt =====
-- Persistent reservations, from usr/spc.c.
pub mod Registration
pub mod Register
pub mod Reserve
pub mod Preempt
pub mod Move
pub mod Access
pub mod In
pub mod ReadKeys
pub mod Actions
pub mod Store
pub mod Invariant
pub mod SafeClean
pub mod SafeRegister
pub mod SafePreempt
pub mod Stranded
pub mod Moved
pub mod Reserved
pub mod Reached
