-- ===== src/Iscsi/Conn/Stages.antt =====
-- The choice of the method and the start of a stage in usr/iscsi/iscsid.c: a connection passes the
-- security stage without CHAP only where its target does not ask for it.
use tgt.Base.{◌≡◌, ◌≢◌, ◌⊎◌, refl, sym, ap, ◌∙◌, inl, inr, Bool, true, false, Bool-cases}
use tgt.Iscsi.Security.{AuthMethod, auth_unknown, auth_none, Security, text_scan_security}
use tgt.Iscsi.SecurityMethod.{required, text_scan_security-required}
use tgt.Iscsi.Conn.State
use tgt.Iscsi.Conn.State.{
  Conn, ConnState, AuthState, auth_state_start, auth_state_challenge, auth_state_response,
  DigestAlg, Request, SessionType, session_normal, session_discovery, fail_login, drop_login,
}
use tgt.Iscsi.Conn.CheckParam.{text_check_param}
use tgt.Iscsi.Conn.Portal.{Portal}
use tgt.Iscsi.Conn.Start.{login_start}
use tgt.Iscsi.Conn.Phases.{
  has_failed, is_auth_none, Flow, returns, onward, scan_security, scan_login, choose_method,
  start_security, negotiate_login, start_login,
}
use tgt.Iscsi.Conn.Guarded.{Begun, Starts, scan_login-Keeps, login_start-Starts}
use tgt.Iscsi.Conn.Transit.{Allowed, is_response, IsGuarded, Keeps-IsGuarded, drop_login-IsGuarded}

abbrev pub result : Flow → Conn
result (returns c) = c
result (onward stay c) = c

required_none :
    (a : Bool) (m : AuthMethod)
    → m ≡ required a
    → is_auth_none m ≡ true
    → (a ≡ false) × (m ≡ auth_none)
required_none true m e h = absurd (no_chap (ap is_auth_none (sym e) ∙ h))
  where
    no_chap : false ≢ true
    no_chap = cc
required_none false m e h = (refl, e)

Allowed-without :
    (s : ConnState) (a : Bool) (m : AuthMethod) → a ≡ false → m ≡ auth_none → Allowed s a m
Allowed-without State.state_free a m e f = tt
Allowed-without State.state_security a m e f = (e, f)
Allowed-without State.state_security_auth a m e f = tt
Allowed-without State.state_close a m e f = tt
Allowed-without State.state_exit a m e f = tt
Allowed-without _ a m e f = e

-- A connection before the method is chosen.
pub record Chooses (p : Portal) (c : Conn) : Type 0 where
  pub method : (c.auth_method ≡ auth_unknown) ⊎ (c.auth_method ≡ required (p.available c.tid))
  pub unanswered : is_response c.auth_state ≡ false
  pub works : has_failed c ≡ false

-- And afterwards.
record Chosen (p : Portal) (c : Conn) : Type 0 where
  outcome : (c.auth_method ≡ required (p.available c.tid)) ⊎ (c.state ≡ State.state_exit)
  unanswered : is_response c.auth_state ≡ false
  ends : has_failed c ≡ true → c.state ≡ State.state_exit

module _ (p : Portal) where
  scan_security-Chosen : (req : Request) (c : Conn) → Chooses p c → Chosen p (scan_security p req c)
  unfolding scan_security
  scan_security-Chosen req c h = elim (Bool-cases scanned.rejected) [
    | inl e ↦
        rw (e, scan_security)
          (record { outcome = inr refl; unanswered = h.unanswered; ends = λ f. refl })
    | inr e ↦
        rw (e, scan_security)
          (record {
            outcome = inl (method_of e);
            unanswered = h.unanswered;
            ends = λ f. absurd (cc (f, h.works));
          })
  ]
    where
      scanned : Security
      scanned =
          text_scan_security (p.available c.tid) p.grows req.req_data
            (record { auth_method = c.auth_method; auth_rsp = c.rsp; rejected = false })

      method_of : scanned.rejected ≡ false → scanned.auth_method ≡ required (p.available c.tid)
      method_of e =
          elim (text_scan_security-required (p.available c.tid) p.grows req.req_data
            (record { auth_method = c.auth_method; auth_rsp = c.rsp; rejected = false }) h.method) [
              | inl m ↦ m
              | inr rejected ↦ absurd (cc)
            ]

  pub choose_method-IsGuarded :
      (req : Request) (c : Conn) → Chooses p c → IsGuarded p (result (choose_method p req c))
  unfolding choose_method
  choose_method-IsGuarded req c h =
      let k = scan_security-Chosen req c h in
      elim (Bool-cases (has_failed (scan_security p req c))) [
        | inl failed ↦
            rw (failed, choose_method)
              (record { allowed = rw (k.ends failed) tt; unanswered = k.unanswered })
        | inr works ↦ elim (Bool-cases (is_auth_none (scan_security p req c).auth_method)) [
          | inr other ↦
              rw (works, other, choose_method) (record { allowed = tt; unanswered = refl })
          | inl unasked ↦
              rw (works, unasked, choose_method)
                (record {
                  allowed = without (scan_security p req c) k.outcome unasked;
                  unanswered = k.unanswered;
                })
        ]
      ]
    where
      without :
          (r : Conn)
          → (r.auth_method ≡ required (p.available r.tid)) ⊎ (r.state ≡ State.state_exit)
          → is_auth_none r.auth_method ≡ true
          → Allowed r.state (p.available r.tid) r.auth_method
      without r (inl m) e =
          let both = required_none (p.available r.tid) r.auth_method m e in
          Allowed-without r.state (p.available r.tid) r.auth_method both.0 both.1
      without r (inr ended) e = rw ended tt

  pub start_security-IsGuarded :
      (req : Request) (c : Conn)
      → is_response c.auth_state ≡ false
      → has_failed c ≡ false
      → IsGuarded p (result (start_security p req c))
  unfolding start_security
  start_security-IsGuarded req c h fresh = elim (Bool-cases (has_failed started)) [
    | inl failed ↦
        rw (failed, start_security)
          (record {
            allowed = rw (ended k.state failed) tt;
            unanswered = ap is_response k.auth_state ∙ h;
          })
    | inr works ↦
        rw (works, start_security)
          (choose_method-IsGuarded req started (record {
            method = inl (unchosen k.state works);
            unanswered = ap is_response k.auth_state ∙ h;
            works = works;
          }))
  ]
    where
      started : Conn
      started = login_start p req (record c { state = State.state_security })

      k : Starts (record c { state = State.state_security }) started
      k = login_start-Starts p req (record c { state = State.state_security })

      ended :
          Begun (record c { state = State.state_security }) started
          → has_failed started ≡ true
          → started.state ≡ State.state_exit
      ended (inl (_, _, same)) failed = absurd (cc (same, fresh, failed))
      ended (inr (e, _)) failed = e

      unchosen :
          Begun (record c { state = State.state_security }) started
          → has_failed started ≡ false
          → started.auth_method ≡ auth_unknown
      unchosen (inl (_, m, _)) works = m
      unchosen (inr (_, failed)) works = absurd (cc (failed, works))

  pub negotiate_login-IsGuarded :
      (req : Request) (c : Conn) → IsGuarded p c → IsGuarded p (result (negotiate_login p req c))
  unfolding negotiate_login text_check_param
  negotiate_login-IsGuarded req c g =
      let k = Keeps-IsGuarded p (scan_login-Keeps p req c) g in
      elim (Bool-cases (has_failed (scan_login p req c))) [
        | inl failed ↦ rw (failed, negotiate_login) k
        | inr works ↦
            rw (works, negotiate_login) (record { allowed = k.allowed; unanswered = k.unanswered })
      ]

  pub start_login-IsGuarded :
      (req : Request) (c : Conn)
      → is_response c.auth_state ≡ false
      → IsGuarded p (result (start_login p req c))
  unfolding start_login
  start_login-IsGuarded req c h = elim (Bool-cases (p.available started.tid)) [
    | inl asked ↦
        rw (asked, start_login) (drop_login-IsGuarded p State.login_auth_failed started unanswered)
    | inr free ↦
        let g : IsGuarded p started = record {
          allowed = open_state k.state free;
          unanswered = unanswered;
        } in
        elim (Bool-cases (has_failed started)) [
          | inl failed ↦ rw (free, failed, start_login) g
          | inr works ↦ rw (free, works, start_login) (negotiate_login-IsGuarded req started g)
        ]
  ]
    where
      started : Conn
      started = login_start p req (record c { state = State.state_login })

      k : Starts (record c { state = State.state_login }) started
      k = login_start-Starts p req (record c { state = State.state_login })

      unanswered : is_response started.auth_state ≡ false
      unanswered = ap is_response k.auth_state ∙ h

      open_state :
          Begun (record c { state = State.state_login }) started
          → p.available started.tid ≡ false
          → Allowed started.state (p.available started.tid) started.auth_method
      open_state (inl (e, _, _)) free = rw e free
      open_state (inr (e, _)) free = rw e tt
