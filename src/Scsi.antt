-- ===== src/Scsi.antt =====
-- usr/scsi.c with usr/scsi.h and usr/scsi_cmnd.h: the commands that all device types share.
pub mod Codes
pub mod Cmd
pub mod Cdb
pub mod Lu
pub mod Ranges
pub mod Usage
pub mod UsageSize
