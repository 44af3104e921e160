-- ===== src/Iscsi/Conn/Phases.antt =====
-- The phases of a login: `cmnd_exec_login` of usr/iscsi/iscsid.c with the functions that it calls,
-- and `cmnd_finish`.
--
-- Connections of an old session that `login_security_done` closes are not part of this one.
use tgt.Base.{
  ℕ, ◌+◌, ◌*◌, ◌/◌, ◌%◌, Bool, true, false, not, ◌&&◌, ◌||◌, none, some, ◌==◌, if◌then◌else◌, bit,
  u32,
}
use tgt.Iscsi.Security.{AuthMethod, auth_unknown, auth_none, auth_chap, text_scan_security}
use tgt.Iscsi.Login.{text_scan_login}
use tgt.Iscsi.Conn.State
use tgt.Iscsi.Conn.State.{
  Conn, ConnState, Request, SessionInfo, SessionType, fail_login, drop_login, session_normal,
  session_discovery, auth_state_start,
}
use tgt.Iscsi.Conn.CheckParam.{text_check_param}
use tgt.Iscsi.Conn.Portal.{Portal, Chance}
use tgt.Iscsi.Conn.Start.{login_start}
use tgt.Iscsi.Conn.AuthChap.{
  AuthResult, auth_ok, chap_initiator_error, chap_auth_error, chap_target_error,
  cmnd_exec_auth_chap,
}

abbrev pub has_failed : Conn → Bool
has_failed c = not (c.status_class == 0)

abbrev pub is_auth_none : AuthMethod → Bool
is_auth_none auth_none = true
is_auth_none auth_unknown = false
is_auth_none auth_chap = false

abbrev pub is_security_auth : ConnState → Bool
is_security_auth State.state_security_auth = true
is_security_auth other = false

-- Where the `switch` over the stages goes: out of the function, or on, with `stay`.
pub data Flow : Type 0 where
  returns : Conn → Flow
  onward : ℕ → Conn → Flow

-- Does the connection's part of a session differ in `rdma`?
abbrev pub differ : Bool → Bool → Bool
differ true b = not b
differ false b = b

module _ (p : Portal) where
  -- `text_scan_security` and `text_scan_login` on the connection.
  unfoldable pub scan_security : Request → Conn → Conn
  scan_security req c =
      let s =
        text_scan_security (p.available c.tid) p.grows req.req_data
          (record { auth_method = c.auth_method; auth_rsp = c.rsp; rejected = false }) in
      let c' = record c { auth_method = s.auth_method; rsp = s.auth_rsp } in
      if s.rejected then fail_login State.cls_initiator_err State.login_auth_failed c' else c'

  unfoldable pub scan_login : Request → Conn → Conn
  scan_login req c =
      let n = text_scan_login p.strtol p.print p.grows req.req_data (record {
        session_param = c.session_param;
        rsp = c.rsp;
        is_rdma = false;
        failed = false;
      }) in
      let c' = record c { session_param = n.session_param; rsp = n.rsp } in
      if n.failed then fail_login State.cls_initiator_err State.login_init_err c' else c'

  unfoldable pub login_security_done : Request → Conn → Conn
  login_security_done req c =
      if c.tid == 0 then c else elim (p.find_session c.tid c.initiator req.req_isid) [
        | some s ↦
            if req.req_tsih == 0
            then c
            else if not (req.req_tsih == s.session_tsih)
            then fail_login State.cls_initiator_err State.login_tgt_not_found c
            else record c { session = some s }
        | none ↦
            if not (req.req_tsih == 0)
            then fail_login State.cls_initiator_err State.login_no_session c
            else c
      ]

  abbrev pub join_session : SessionInfo → Conn → Conn
  join_session s c = record c { session = some s; isid = s.session_isid; tsih = s.session_tsih }

  abbrev pub fail_finish : ℕ → ℕ → Conn → Conn
  fail_finish class detail c = fail_login class detail (record c { rsp_flags = 0 })

  unfoldable pub login_finish : Conn → Conn
  login_finish c = elim c.session_type [
    | session_discovery ↦ record c { tsih = 1 }
    | session_normal ↦
        if not (p.login_complete c)
        then fail_finish State.cls_target_err State.login_no_resources c
        else elim c.session [
          | none ↦ elim (p.session_create c) [
            | none ↦ fail_finish State.cls_target_err State.login_target_error c
            | some s ↦ join_session s c
          ]
          | some s ↦
              if differ c.tp_rdma s.session_rdma
              then fail_finish State.cls_initiator_err State.login_invalid_request c
              else join_session s c
        ]
  ]

  unfoldable pub cmnd_exec_auth : Chance → Request → Conn → AuthResult × Conn
  unfolding cmnd_exec_auth_chap
  cmnd_exec_auth w req c = elim c.auth_method [
    | auth_chap ↦ cmnd_exec_auth_chap p w req.req_data c
    | auth_none ↦ (auth_ok, c)
    | auth_unknown ↦ (chap_target_error, c)
  ]

  -- The case STATE_SECURITY of the security stage.
  unfoldable pub choose_method : Request → Conn → Flow
  unfolding scan_security
  choose_method req c =
      let c' = scan_security req c in
      if has_failed c'
      then returns c'
      else if is_auth_none c'.auth_method
      then onward 0 c'
      else onward 0 (record c' { state = State.state_security_auth; auth_state = auth_state_start })

  abbrev pub after_auth : AuthResult × Conn → Flow
  after_auth (auth_ok, c) = onward 0 c
  after_auth (chap_auth_error, c) = returns (drop_login State.login_auth_failed c)
  after_auth (chap_initiator_error, c) = returns (drop_login State.login_init_err c)
  after_auth (chap_target_error, c) = returns (drop_login State.login_init_err c)

  abbrev pub out_of_phase : Conn → Flow
  out_of_phase c = returns (drop_login State.login_init_err c)

  unfoldable pub start_security : Request → Conn → Flow
  unfolding choose_method login_start
  start_security req c =
      let c' = login_start p req (record c { state = State.state_security }) in
      if has_failed c' then returns c' else choose_method req c'

  unfoldable pub security_stage : Chance → Request → Conn → Flow
  unfolding start_security cmnd_exec_auth
  security_stage w req c = elim c.state [
    | State.state_free ↦ start_security req c
    | State.state_security ↦ choose_method req c
    | State.state_security_auth ↦ after_auth (cmnd_exec_auth w req c)
    | _ ↦ out_of_phase c
  ]

  -- The case STATE_LOGIN of the operational stage.
  unfoldable pub negotiate_login : Request → Conn → Flow
  unfolding scan_login
  negotiate_login req c =
      let c' = scan_login req c in
      if has_failed c'
      then returns c'
      else let (c'', stay) = text_check_param p.print p.grows c' in onward stay c''

  unfoldable pub start_login : Request → Conn → Flow
  unfolding negotiate_login login_start
  start_login req c =
      let c' = login_start p req (record c { state = State.state_login }) in
      if p.available c'.tid
      then returns (drop_login State.login_auth_failed c')
      else if has_failed c'
      then returns c'
      else negotiate_login req c'

  unfoldable pub login_stage : Request → Conn → Flow
  unfolding start_login
  login_stage req c = elim c.state [
    | State.state_free ↦ start_login req c
    | State.state_login ↦ negotiate_login req c
    | _ ↦ out_of_phase c
  ]

  -- The answer's last fields.
  abbrev pub reply : Conn → Conn
  reply c = record c { rsp_isid = c.isid; rsp_tsih = c.tsih; stat_sn = u32 (c.stat_sn + 1) }

  -- `rsp->flags |= nsg | (stay ? 0 : ISCSI_FLAG_LOGIN_TRANSIT)`, after `rsp->flags = stage << 2`
  abbrev pub set_stage : ℕ → ℕ → Conn → Conn
  set_stage nsg stay c =
      reply (record c { rsp_flags = c.rsp_flags + nsg + (if stay == 0 then 128 else 0) })

  unfoldable pub finish_login : ℕ → Conn → Conn
  unfolding login_finish
  finish_login stay c = let c' = login_finish c in if has_failed c' then c' else set_stage 3 stay c'

  -- Only STATE_LOGIN sets `stay`, so it is 0 here.
  unfoldable pub leave_security : ℕ → Request → Conn → Conn
  unfolding finish_login login_security_done
  leave_security stay req c =
      let (c', disagree) = text_check_param p.print p.grows c in
      if not (disagree == 0)
      then set_stage 1 stay (record c' { state = State.state_login })
      else finish_login stay
          (login_security_done req (record c' { state = State.state_security_full }))

  unfoldable pub leave_login : ℕ → Conn → Conn
  unfolding finish_login
  leave_login stay c =
      if not (stay == 0)
      then set_stage 1 stay c
      else finish_login stay (record c { state = State.state_login_full })

  -- The next stage that the initiator asks for.
  unfoldable pub to_full_feature : ℕ → Request → Conn → Conn
  unfolding leave_security leave_login
  to_full_feature stay req c = elim c.state [
    | State.state_security ↦ leave_security stay req c
    | State.state_security_done ↦ leave_security stay req c
    | State.state_login ↦ leave_login stay c
    | _ ↦ drop_login State.login_init_err c
  ]

  abbrev pub enter_login : ℕ → Request → Conn → Conn
  enter_login stay req c =
      set_stage 1 stay (login_security_done req (record c { state = State.state_security_login }))

  unfoldable pub to_login : ℕ → Request → Conn → Conn
  unfolding login_security_done
  to_login stay req c = elim c.state [
    | State.state_security ↦ enter_login stay req c
    | State.state_security_done ↦ enter_login stay req c
    | _ ↦ drop_login State.login_init_err c
  ]

  unfoldable pub transit : ℕ → Request → Conn → Conn
  unfolding to_login to_full_feature
  transit stay req c =
      if has_failed c
      then c
      else if not (is_security_auth c.state) && bit req.flags 7
      then if req.flags % 4 == 1
        then to_login stay req c
        else if req.flags % 4 == 3
        then to_full_feature stay req c
        else drop_login State.login_init_err c
      else reply c

  abbrev pub follow : Request → Flow → Conn
  follow req (returns c) = c
  follow req (onward stay c) = transit stay req c

  -- `memset(rsp, 0, BHS_SIZE)`, and the flags of a stage.
  abbrev pub clear_rsp : ℕ → Conn → Conn
  clear_rsp stage c = record c {
    status_class = 0;
    status_detail = 0;
    rsp_flags = stage * 4;
    rsp_isid = 0;
    rsp_tsih = 0;
  }

  -- A request that is no immediate login is rejected: the connection keeps its state, and the
  -- response's data are a copy of the request's header.
  unfoldable pub cmnd_exec_login : Chance → Request → Conn → Conn
  unfolding transit security_stage login_stage
  cmnd_exec_login w req c =
      if not (req.opcode % 64 == 3) || not (bit req.opcode 6)
      then record (clear_rsp 0 c) {
        rsp = record c.rsp { rsp_data = req.bhs };
        stat_sn = u32 (c.stat_sn + 1);
      }
      else if not (req.min_version == 0)
      then fail_login State.cls_initiator_err State.login_no_version (clear_rsp 0 c)
      else if req.flags / 4 % 4 == 0
      then follow req (security_stage w req (clear_rsp 0 c))
      else if req.flags / 4 % 4 == 1
      then follow req (login_stage req (clear_rsp 1 c))
      else drop_login State.login_init_err (clear_rsp 0 c)

abbrev pub full_state : SessionType → ConnState
full_state session_normal = State.state_kernel
full_state session_discovery = State.state_full

-- After the response was sent.
unfoldable pub cmnd_finish : Conn → Conn
cmnd_finish c = elim c.state [
  | State.state_exit ↦ record c { state = State.state_close }
  | State.state_security_login ↦ record c { state = State.state_login }
  | State.state_security_full ↦ record c { state = full_state c.session_type }
  | State.state_login_full ↦ record c { state = full_state c.session_type }
  | _ ↦ c
]
