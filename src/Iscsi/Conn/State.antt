-- ===== src/Iscsi/Conn/State.antt =====
-- The connection and a request: `struct iscsi_connection` of usr/iscsi/iscsid.h, and `struct
-- iscsi_login`, `iscsi_text` and `iscsi_logout` of usr/iscsi/iscsi_proto.h in one record, with the
-- fields that these commands read and write.
--
-- An `isid` is the number of its 6 bytes, as `sid64` reads them.
use tgt.Base.{ℕ, Bool, Option, List}
use tgt.Iscsi.Keys.{Response}
use tgt.Iscsi.Param.{Param}
use tgt.Iscsi.Security.{AuthMethod}

pub data ConnState : Type 0 where
  state_free state_security state_security_auth state_security_done state_security_login : ConnState
  state_security_full state_login state_login_full state_full state_kernel state_close : ConnState
  state_exit state_scsi : ConnState

pub data SessionType : Type 0 where
  session_normal session_discovery : SessionType

-- CHAP_AUTH_STATE_*
pub data AuthState : Type 0 where
  auth_state_start auth_state_challenge auth_state_response : AuthState

-- CHAP_DIGEST_ALG_*
pub data DigestAlg : Type 0 where
  digest_md5 digest_sha1 : DigestAlg

-- `conn->auth.chap`; there is no algorithm before the initiator has chosen one.
pub record ChapAuth : Type 0 where
  pub digest_alg : Option DigestAlg
  pub id : ℕ
  pub challenge : List ℕ

pub record SessionInfo : Type 0 where
  pub session_isid : ℕ
  pub session_tsih : ℕ
  pub session_rdma : Bool

pub record Conn : Type 0 where
  pub state : ConnState
  pub tid : ℕ
  pub cid : ℕ
  pub isid : ℕ
  pub tsih : ℕ
  pub initiator : List ℕ
  pub initiator_alias : Option (List ℕ)
  pub session_type : SessionType
  pub auth_method : AuthMethod
  pub auth_state : AuthState
  pub chap : ChapAuth
  pub session_param : List Param
  pub rsp : Response
  pub tp_rdma : Bool
  pub session : Option SessionInfo
  pub status_class : ℕ
  pub status_detail : ℕ
  pub rsp_flags : ℕ
  pub rsp_isid : ℕ
  pub rsp_tsih : ℕ
  pub stat_sn : ℕ
  pub exp_cmd_sn : ℕ
  pub max_cmd_sn : ℕ
  pub ttt : ℕ
  -- where `rsp.data` and `text_rsp_buffer` point to, as offsets in `rsp_buffer`
  pub rsp_at : ℕ
  pub text_at : ℕ
  -- the bytes that `text_rsp_buffer` points to, `text_datasize` of them
  pub text_rsp : List ℕ

-- The fields of a request's header, the header's bytes, and the request's data.
pub record Request : Type 0 where
  pub opcode : ℕ
  pub min_version : ℕ
  pub flags : ℕ
  pub req_cid : ℕ
  pub req_isid : ℕ
  pub req_tsih : ℕ
  pub cmd_sn : ℕ
  pub req_ttt : ℕ
  pub bhs : List ℕ
  pub req_data : List ℕ

-- ISCSI_STATUS_CLS_*
abbrev pub cls_redirect : ℕ
cls_redirect = 1

abbrev pub cls_initiator_err : ℕ
cls_initiator_err = 2

abbrev pub cls_target_err : ℕ
cls_target_err = 3

-- ISCSI_LOGIN_STATUS_*, for an error of the initiator.
abbrev pub login_init_err : ℕ
login_init_err = 0

abbrev pub login_auth_failed : ℕ
login_auth_failed = 1

abbrev pub login_tgt_not_found : ℕ
login_tgt_not_found = 3

abbrev pub login_no_version : ℕ
login_no_version = 5

abbrev pub login_missing_fields : ℕ
login_missing_fields = 7

abbrev pub login_no_session_type : ℕ
login_no_session_type = 9

abbrev pub login_no_session : ℕ
login_no_session = 10

abbrev pub login_invalid_request : ℕ
login_invalid_request = 11

-- For an error of the target.
abbrev pub login_target_error : ℕ
login_target_error = 0

abbrev pub login_no_resources : ℕ
login_no_resources = 2

-- The error that ends a login.
abbrev pub fail_login : ℕ → ℕ → Conn → Conn
fail_login class detail c = record c {
  state = state_exit;
  status_class = class;
  status_detail = detail;
}

-- The labels `init_err` and `auth_err`.
abbrev pub drop_login : ℕ → Conn → Conn
drop_login detail c = fail_login cls_initiator_err detail (record c { rsp_flags = 0 })
