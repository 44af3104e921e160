-- ===== src/Iscsi/Conn/Start.antt =====
-- The first request of a login: `login_start` of usr/iscsi/iscsid.c.
use tgt.Base.{
  ℕ, ◌+◌, not, ◌&&◌, ◌||◌, Option, none, some, List, ◌==◌, if◌then◌else◌, text, same_text, u32,
}
use tgt.Target.Lookup.{global_tid}
use tgt.Iscsi.Keys.{text_key_add}
use tgt.Iscsi.Security.{auth_unknown}
use tgt.Iscsi.Conn.State.{
  Conn, Request, SessionType, session_normal, session_discovery, fail_login, cls_redirect,
  cls_initiator_err, cls_target_err, login_tgt_not_found, login_missing_fields,
  login_no_session_type, login_target_error,
}
use tgt.Iscsi.Conn.Find.{text_key_find}
use tgt.Iscsi.Conn.Portal.{Portal, TargetInfo, stays, redirect_failed, redirect_to}

-- The key SessionType; `none` is a value that is not known.
abbrev pub session_type_of : Option (List ℕ) → Option SessionType
session_type_of none = some session_normal
session_type_of (some s) =
    if same_text s (text "Discovery")
    then some session_discovery
    else if same_text s (text "Normal")
    then some session_normal
    else none

module _ (p : Portal) where
  abbrev pub refuse_login : ℕ → Conn → Conn
  refuse_login detail c = fail_login cls_initiator_err detail c

  -- After the checks: the numbers of commands, and the first key of the response.
  unfoldable pub begin_login : Request → Conn → Conn
  begin_login req c = record c {
    exp_cmd_sn = req.cmd_sn;
    max_cmd_sn = u32 (req.cmd_sn + 1);
    rsp = text_key_add p.grows c.rsp (text "TargetPortalGroupTag") (text "1");
  }

  -- A target that was found, with `tid` set: redirection, state and access.
  unfoldable pub admit : Request → TargetInfo → Conn → Conn
  unfolding begin_login
  admit req g c = elim (p.redirected g.target_tid) [
    | redirect_failed ↦ fail_login cls_target_err login_target_error c
    | redirect_to address reason ↦
        fail_login cls_redirect reason
          (record c { rsp = text_key_add p.grows c.rsp (text "TargetAddress") address })
    | stays ↦
        if not g.is_ready
        then fail_login cls_target_err login_target_error c
        else if p.ip_acl c.tid || p.iqn_acl c.tid c.initiator || p.isns_scn_access c.tid c.initiator
        then refuse_login login_tgt_not_found c
        else begin_login req (record c { session_param = g.target_param })
  ]

  unfoldable pub start_normal : Request → Conn → Conn
  unfolding admit
  start_normal req c = elim (text_key_find req.req_data (text "TargetName")) [
    | none ↦ refuse_login login_missing_fields c
    | some name ↦ elim (p.find_target name) [
      | none ↦ refuse_login login_tgt_not_found c
      | some g ↦
          if g.rdma
          then refuse_login login_tgt_not_found c
          else admit req g (record c { tid = g.target_tid })
    ]
  ]

  -- From the key SessionType on.
  unfoldable pub begin_session : Request → Conn → Conn
  unfolding start_normal
  begin_session req c = elim (session_type_of (text_key_find req.req_data (text "SessionType"))) [
    | none ↦ refuse_login login_no_session_type c
    | some session_discovery ↦
        begin_login req (record c { session_type = session_discovery; tid = global_tid })
    | some session_normal ↦ start_normal req c
  ]

  -- The fields that a connection takes from the request's header.
  abbrev pub take_header : Request → Conn → Conn
  take_header req c = record c { cid = req.req_cid; isid = req.req_isid; tsih = req.req_tsih }

  abbrev pub name_initiator : Request → List ℕ → Conn → Conn
  name_initiator req name c = record c {
    initiator = name;
    initiator_alias = elim (text_key_find req.req_data (text "InitiatorAlias")) [
      | none ↦ c.initiator_alias
      | some alias ↦ some alias
    ];
    auth_method = auth_unknown;
    session_type = session_normal;
  }

  unfoldable pub login_start : Request → Conn → Conn
  unfolding begin_session
  login_start req c =
      if (req.req_isid == 0) && (req.req_tsih == 0)
      then refuse_login login_missing_fields (take_header req c)
      else elim (text_key_find req.req_data (text "InitiatorName")) [
        | none ↦ refuse_login login_missing_fields (take_header req c)
        | some name ↦ begin_session req (name_initiator req name (take_header req c))
      ]
