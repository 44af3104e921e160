-- ===== src/Iscsi/Conn/Guarded.antt =====
-- What a login of usr/iscsi/iscsid.c keeps of a connection.
use tgt.Base.{
  ◌≡◌, ◌⊎◌, refl, inl, inr, true, ◌&&◌, Option, none, some, ◌==◌, arith, text, Bool-cases,
  Option-cases,
}
use tgt.Iscsi.Security.{auth_unknown}
use tgt.Iscsi.Conn.State
use tgt.Iscsi.Conn.State.{
  Conn, ConnState, AuthState, auth_state_start, auth_state_challenge, auth_state_response, Request,
  SessionType, session_normal, session_discovery, fail_login, drop_login,
}
use tgt.Iscsi.Conn.Find.{text_key_find}
use tgt.Iscsi.Conn.Portal.{Portal, TargetInfo}
use tgt.Iscsi.Conn.Start.{
  session_type_of, begin_login, admit, start_normal, begin_session, take_header, name_initiator,
  login_start,
}
use tgt.Iscsi.Conn.Phases.{has_failed, scan_login, login_security_done, login_finish}

-- The connection is as before, or its login has ended with an error.
pub record Keeps (c r : Conn) : Type 0 where
  pub tid : r.tid ≡ c.tid
  pub auth_state : r.auth_state ≡ c.auth_state
  pub auth_method : r.auth_method ≡ c.auth_method
  pub state : (r.state ≡ c.state) ⊎ (r.state ≡ State.state_exit)

-- The connection has no method yet, or its login has ended with an error.
abbrev pub Begun : Conn → Conn → Type 0
Begun c r =
    ((r.state ≡ c.state) × (r.auth_method ≡ auth_unknown) × (has_failed r ≡ has_failed c))
    ⊎ ((r.state ≡ State.state_exit) × (has_failed r ≡ true))

pub record Starts (c r : Conn) : Type 0 where
  pub auth_state : r.auth_state ≡ c.auth_state
  pub state : Begun c r

module _ (p : Portal) where
  pub scan_login-Keeps : (req : Request) (c : Conn) → Keeps c (scan_login p req c)
  unfolding scan_login
  scan_login-Keeps req c = ground arith

  pub login_security_done-Keeps : (req : Request) (c : Conn) → Keeps c (login_security_done p req c)
  unfolding login_security_done
  login_security_done-Keeps req c = ground arith

  pub login_finish-Keeps : (c : Conn) → Keeps c (login_finish p c)
  unfolding login_finish
  login_finish-Keeps c = ground arith

  admit-Starts :
      (req : Request) (g : TargetInfo) (c : Conn)
      → c.auth_method ≡ auth_unknown
      → Starts c (admit p req g c)
  unfolding admit
  admit-Starts req g c h = ground arith

  start_normal-Starts :
      (req : Request) (c : Conn) → c.auth_method ≡ auth_unknown → Starts c (start_normal p req c)
  unfolding start_normal
  start_normal-Starts req c h =
      elim (Option-cases (text_key_find req.req_data (text "TargetName"))) [
        | inl e ↦ rw (e, start_normal) (record { auth_state = refl; state = inr (refl, refl) })
        | inr (name, e) ↦
            rw (e, start_normal)
              (elim (Option-cases (p.find_target name)) [
                | inl f ↦
                    rw (f, start_normal) (record { auth_state = refl; state = inr (refl, refl) })
                | inr (g, f) ↦
                    rw (f, start_normal)
                      (elim (Bool-cases g.rdma) [
                        | inl r ↦
                            rw (r, start_normal)
                              (record { auth_state = refl; state = inr (refl, refl) })
                        | inr r ↦
                            rw (r, start_normal)
                              (let a = admit-Starts req g (record c { tid = g.target_tid }) h in
                                record { auth_state = a.auth_state; state = a.state })
                      ])
              ])
      ]

  begin_session-Starts :
      (req : Request) (c : Conn) → c.auth_method ≡ auth_unknown → Starts c (begin_session p req c)
  unfolding begin_session begin_login
  begin_session-Starts req c h =
      by_type (session_type_of (text_key_find req.req_data (text "SessionType"))) refl
    where
      by_type :
          (t : Option SessionType)
          → session_type_of (text_key_find req.req_data (text "SessionType")) ≡ t
          → Starts c (begin_session p req c)
      by_type none e =
          rw (e, begin_session) (record { auth_state = refl; state = inr (refl, refl) })
      by_type (some session_discovery) e =
          rw (e, begin_session) (record { auth_state = refl; state = inl (refl, h, refl) })
      by_type (some session_normal) e = rw (e, begin_session) (start_normal-Starts req c h)

  pub login_start-Starts : (req : Request) (c : Conn) → Starts c (login_start p req c)
  unfolding login_start
  login_start-Starts req c = elim (Bool-cases ((req.req_isid == 0) && (req.req_tsih == 0))) [
    | inl e ↦ rw (e, login_start) (record { auth_state = refl; state = inr (refl, refl) })
    | inr e ↦
        rw (e, login_start)
          (elim (Option-cases (text_key_find req.req_data (text "InitiatorName"))) [
            | inl f ↦ rw (f, login_start) (record { auth_state = refl; state = inr (refl, refl) })
            | inr (name, f) ↦
                rw (f, login_start)
                  (let s =
                      begin_session-Starts req (name_initiator p req name (take_header p req c))
                        refl in
                    record { auth_state = s.auth_state; state = s.state })
          ])
  ]
