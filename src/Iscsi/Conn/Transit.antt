-- ===== src/Iscsi/Conn/Transit.antt =====
-- The end of a stage in usr/iscsi/iscsid.c, for a target that asks for CHAP: it opens no connection
-- that the stage itself has not opened.
use tgt.Base.{
  zero, suc, ℕ, ◌%◌, ◌≡◌, refl, subst, inl, inr, Bool, true, false, not, ◌&&◌, ◌==◌, arith, bit,
  Bool-cases,
}
use tgt.Iscsi.Security.{AuthMethod, auth_none}
use tgt.Iscsi.Conn.State
use tgt.Iscsi.Conn.State.{
  Conn, ConnState, AuthState, auth_state_start, auth_state_challenge, auth_state_response,
  DigestAlg, Request, SessionType, session_normal, session_discovery, fail_login, drop_login,
}
use tgt.Iscsi.Conn.CheckParam.{text_check_param}
use tgt.Iscsi.Conn.Portal.{Portal}
use tgt.Iscsi.Conn.Phases.{
  has_failed, login_finish, reply, finish_login, leave_security, leave_login, to_full_feature,
  enter_login, to_login, transit, is_security_auth,
}
use tgt.Iscsi.Conn.Guarded.{Keeps, login_security_done-Keeps, login_finish-Keeps}

-- The states from the end of the security stage on, but for those that end a connection.
abbrev pub is_open : ConnState → Bool
is_open State.state_free = false
is_open State.state_security = false
is_open State.state_security_auth = false
is_open State.state_security_done = true
is_open State.state_security_login = true
is_open State.state_security_full = true
is_open State.state_login = true
is_open State.state_login_full = true
is_open State.state_full = true
is_open State.state_kernel = true
is_open State.state_close = false
is_open State.state_exit = false
is_open State.state_scsi = true

-- What a state tells about the target and the method.
abbrev pub Allowed : ConnState → Bool → AuthMethod → Type 0
Allowed State.state_security a m = (a ≡ false) × (m ≡ auth_none)
Allowed State.state_free a m = Unit
Allowed State.state_security_auth a m = Unit
Allowed State.state_security_done a m = a ≡ false
Allowed State.state_security_login a m = a ≡ false
Allowed State.state_security_full a m = a ≡ false
Allowed State.state_login a m = a ≡ false
Allowed State.state_login_full a m = a ≡ false
Allowed State.state_full a m = a ≡ false
Allowed State.state_kernel a m = a ≡ false
Allowed State.state_close a m = Unit
Allowed State.state_exit a m = Unit
Allowed State.state_scsi a m = a ≡ false

abbrev pub is_response : AuthState → Bool
is_response auth_state_response = true
is_response auth_state_start = false
is_response auth_state_challenge = false

pub record IsGuarded (p : Portal) (c : Conn) : Type 0 where
  pub allowed : Allowed c.state (p.available c.tid) c.auth_method
  pub unanswered : is_response c.auth_state ≡ false

module _ (p : Portal) where
  pub Keeps-IsGuarded : {c r : Conn} → Keeps c r → IsGuarded p c → IsGuarded p r
  Keeps-IsGuarded {c} {r} k g = elim k.state [
    | inl same ↦ record {
      allowed = rw (same, k.tid, k.auth_method) g.allowed;
      unanswered = rw k.auth_state g.unanswered;
    }
    | inr ended ↦ record { allowed = rw ended tt; unanswered = rw k.auth_state g.unanswered }
  ]

  pub Allowed-in :
      {c : Conn} {s : ConnState}
      → c.state ≡ s
      → IsGuarded p c
      → Allowed s (p.available c.tid) c.auth_method
  Allowed-in {c} e g = subst (λ s. Allowed s (p.available c.tid) c.auth_method) e g.allowed

  pub drop_login-IsGuarded :
      (detail : ℕ) (c : Conn) → is_response c.auth_state ≡ false → IsGuarded p (drop_login detail c)
  drop_login-IsGuarded detail c h = record { allowed = tt; unanswered = h }

  finish_login-IsGuarded :
      (stay : ℕ) (c : Conn) → IsGuarded p c → IsGuarded p (finish_login p stay c)
  unfolding finish_login
  finish_login-IsGuarded stay c g =
      let k = Keeps-IsGuarded (login_finish-Keeps p c) g in
      elim (Bool-cases (has_failed (login_finish p c))) [
        | inl e ↦ rw (e, finish_login) k
        | inr e ↦ rw (e, finish_login) (record { allowed = k.allowed; unanswered = k.unanswered })
      ]

  -- An open connection, once its state changes to another open one.
  leave_security-IsGuarded :
      (stay : ℕ) (req : Request) (c : Conn)
      → p.available c.tid ≡ false
      → is_response c.auth_state ≡ false
      → IsGuarded p (leave_security p stay req c)
  unfolding leave_security text_check_param
  leave_security-IsGuarded stay req c free h =
      elim (Bool-cases ((text_check_param p.print p.grows c).1 == 0)) [
        | inr e ↦ rw (e, leave_security) (record { allowed = free; unanswered = h })
        | inl e ↦
            rw (e, leave_security)
              (finish_login-IsGuarded stay _ (
                Keeps-IsGuarded
                  {c = record (text_check_param p.print p.grows c).0 {
                    state = State.state_security_full;
                  }}
                  (login_security_done-Keeps p req _) (record { allowed = free; unanswered = h })))
      ]

  leave_login-IsGuarded :
      (stay : ℕ) (c : Conn)
      → c.state ≡ State.state_login
      → IsGuarded p c
      → IsGuarded p (leave_login p stay c)
  unfolding leave_login
  leave_login-IsGuarded zero c e g =
      finish_login-IsGuarded 0 (record c { state = State.state_login_full })
        (record { allowed = Allowed-in e g; unanswered = g.unanswered })
  leave_login-IsGuarded (suc stay) c e g =
      let more : (suc stay == 0) ≡ false = ground arith in
      rw (more, leave_login) (record { allowed = g.allowed; unanswered = g.unanswered })

  enter_login-IsGuarded :
      (stay : ℕ) (req : Request) (c : Conn)
      → p.available c.tid ≡ false
      → is_response c.auth_state ≡ false
      → IsGuarded p (enter_login p stay req c)
  enter_login-IsGuarded stay req c free h =
      let k =
        Keeps-IsGuarded {c = record c { state = State.state_security_login }}
          (login_security_done-Keeps p req (record c { state = State.state_security_login }))
          (record { allowed = free; unanswered = h }) in
      record { allowed = k.allowed; unanswered = k.unanswered }

  to_full_feature-IsGuarded :
      (stay : ℕ) (req : Request) (c : Conn)
      → IsGuarded p c
      → IsGuarded p (to_full_feature p stay req c)
  unfolding to_full_feature
  to_full_feature-IsGuarded stay req c g = by_state c.state refl
    where
      by_state : (s : ConnState) → c.state ≡ s → IsGuarded p (to_full_feature p stay req c)
      by_state State.state_security e =
          rw (e, to_full_feature)
            (leave_security-IsGuarded stay req c (Allowed-in e g).0 g.unanswered)
      by_state State.state_security_done e =
          rw (e, to_full_feature)
            (leave_security-IsGuarded stay req c (Allowed-in e g) g.unanswered)
      by_state State.state_login e = rw (e, to_full_feature) (leave_login-IsGuarded stay c e g)
      by_state _ e =
          rw (e, to_full_feature) (drop_login-IsGuarded State.login_init_err c g.unanswered)

  to_login-IsGuarded :
      (stay : ℕ) (req : Request) (c : Conn) → IsGuarded p c → IsGuarded p (to_login p stay req c)
  unfolding to_login
  to_login-IsGuarded stay req c g = by_state c.state refl
    where
      by_state : (s : ConnState) → c.state ≡ s → IsGuarded p (to_login p stay req c)
      by_state State.state_security e =
          rw (e, to_login) (enter_login-IsGuarded stay req c (Allowed-in e g).0 g.unanswered)
      by_state State.state_security_done e =
          rw (e, to_login) (enter_login-IsGuarded stay req c (Allowed-in e g) g.unanswered)
      by_state _ e = rw (e, to_login) (drop_login-IsGuarded State.login_init_err c g.unanswered)

  reply-IsGuarded : (c : Conn) → IsGuarded p c → IsGuarded p (reply p c)
  reply-IsGuarded c g = record { allowed = g.allowed; unanswered = g.unanswered }

  pub transit-IsGuarded :
      (stay : ℕ) (req : Request) (c : Conn) → IsGuarded p c → IsGuarded p (transit p stay req c)
  unfolding transit
  transit-IsGuarded stay req c g = elim (Bool-cases (has_failed c)) [
    | inl e ↦ rw (e, transit) g
    | inr e ↦ elim (Bool-cases (not (is_security_auth c.state) && bit req.flags 7)) [
      | inr f ↦ rw (e, f, transit) (reply-IsGuarded c g)
      | inl f ↦ elim (Bool-cases (req.flags % 4 == 1)) [
        | inl one ↦ rw (e, f, one, transit) (to_login-IsGuarded stay req c g)
        | inr not_one ↦ elim (Bool-cases (req.flags % 4 == 3)) [
          | inl three ↦ rw (e, f, not_one, three, transit) (to_full_feature-IsGuarded stay req c g)
          | inr other ↦
              rw (e, f, not_one, other, transit)
                (drop_login-IsGuarded State.login_init_err c g.unanswered)
        ]
      ]
    ]
  ]
