-- ===== src/Iscsi.antt =====
-- The iSCSI target driver, usr/iscsi.
pub mod Base64
pub mod Base64RoundTrip
pub mod Chap
pub mod ChapBounds
pub mod ChapOverflow
pub mod Keys
pub mod KeysRoundTrip
pub mod Param
pub mod Login
pub mod Fits
pub mod LoginFits
pub mod Offers
pub mod Security
pub mod SecurityMethod
pub mod Sequence
pub mod InOrder
pub mod Wedge
pub mod Conn
pub mod Acl
