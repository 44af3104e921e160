-- ===== src/Iscsi/Conn/Portal.antt =====
-- What a login asks of the rest of the target: the look-ups of usr/iscsi/target.c,
-- usr/iscsi/session.c, usr/iscsi/isns.c and usr/target.c that it calls, the accounts of a target,
-- the transport, the hash functions and what varies from request to request.
use tgt.Base.{ℕ, Bool, Option, List}
use tgt.Iscsi.Param.{Param}
use tgt.Iscsi.Conn.State.{Conn, DigestAlg, SessionInfo}

-- A target, as `target_find_by_name` gives it. `is_ready` is whether its state is
-- SCSI_TARGET_READY.
pub record TargetInfo : Type 0 where
  pub target_tid : ℕ
  pub rdma : Bool
  pub target_param : List Param
  pub is_ready : Bool

-- The result of `target_redirected`.
pub data Redirection : Type 0 where
  stays redirect_failed : Redirection
  redirect_to : List ℕ → ℕ → Redirection

pub record Portal : Type 0 where
  pub find_target : List ℕ → Option TargetInfo
  -- `iscsi_targets_list` in its order, with `tgt_targetname`
  pub targets : List (ℕ × List ℕ)
  -- what `text_scan_text` makes of `ep_getsockname` and `getnameinfo`: "address:port,1"
  pub portal_name : Option (List ℕ)
  pub redirected : ℕ → Redirection
  pub ip_acl : ℕ → Bool
  pub iqn_acl : ℕ → List ℕ → Bool
  pub isns_scn_access : ℕ → List ℕ → Bool
  -- `account_available` for incoming authentication
  pub available : ℕ → Bool
  -- `account_lookup`: the password of an incoming account, and the outgoing account
  pub incoming : ℕ → List ℕ → Option (List ℕ)
  pub outgoing : ℕ → Option (List ℕ × List ℕ)
  -- `session_find_name`, for a target, an initiator and an isid
  pub find_session : ℕ → List ℕ → ℕ → Option SessionInfo
  -- whether `ep_login_complete` works, and what `session_create` makes
  pub login_complete : Conn → Bool
  -- whether `conn_take_fd` works
  pub take_fd : Conn → Bool
  pub session_create : Conn → Option SessionInfo
  -- `chap_calc_digest_md5` and `chap_calc_digest_sha1`
  pub calc_digest : DigestAlg → ℕ → List ℕ → List ℕ → List ℕ
  -- `strtol` with base 0 and with base 10
  pub strtol : List ℕ → ℕ
  pub decimal : List ℕ → ℕ
  pub print : ℕ → List ℕ
  pub grows : Bool

-- What a request finds of the process: the counter `chap_id`, the bytes that `rand` gives for a
-- challenge, what the memory of a new buffer holds, and whether `malloc` gives memory.
pub record Chance : Type 0 where
  pub last_id : ℕ
  pub random : List ℕ
  pub stale : List ℕ
  pub allocates : Bool
