-- ===== src/Iscsi/Conn.antt =====
-- A connection until the full feature phase: the login of usr/iscsi/iscsid.c and usr/iscsi/chap.c.
pub mod State
pub mod Find
pub mod CheckParam
pub mod Portal
pub mod Start
pub mod AuthChap
pub mod Phases
pub mod Text
pub mod Execute
pub mod Guarded
pub mod Answers
pub mod Transit
pub mod Stages
pub mod Authenticated
pub mod TextKeeps
pub mod TextWhole
pub mod TextPadded
pub mod Attempts
pub mod Administered
