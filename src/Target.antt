-- ===== src/Target.antt =====
-- usr/target.c: initiator-target nexuses, unit attentions, device reservations, command queues.
pub mod Nexus
pub mod Reserve
pub mod Queue
pub mod Progress
pub mod Ordering
pub mod Lookup
pub mod Acl
pub mod AclRoundTrip
pub mod Account
pub mod Places
pub mod AccountPlaces
pub mod AccountList
pub mod AccountKept
pub mod AccountHidden
