-- ===== src/Tests.antt =====
-- The theorems at concrete inputs, and runs of the model.
pub mod Spc
mod Sbc
mod Scsi
mod Perform
mod Target
mod Iscsi
mod Smc
mod Chap
mod Security
pub mod Login
mod Acl
mod Account
mod ReadKeys
mod Reached
