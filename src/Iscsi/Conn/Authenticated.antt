-- ===== src/Iscsi/Conn/Authenticated.antt =====
-- Where a target asks for CHAP, no login of usr/iscsi/iscsid.c passes without the right digest.
use tgt.Base.{
  ℕ, ◌%◌, ◌/◌, ◌≡◌, ◌≢◌, refl, ap, inl, inr, false, not, ◌||◌, List, ◌==◌, arith, bit, Bool-cases,
}
use tgt.Iscsi.Security.{AuthMethod, auth_unknown, auth_none, auth_chap}
use tgt.Iscsi.Conn.State
use tgt.Iscsi.Conn.State.{
  Conn, ConnState, AuthState, auth_state_start, auth_state_challenge, auth_state_response,
  DigestAlg, Request, SessionType, session_normal, session_discovery, fail_login, drop_login,
}
use tgt.Iscsi.Conn.Portal.{Portal, Chance}
use tgt.Iscsi.Conn.AuthChap.{
  AuthResult, auth_ok, chap_initiator_error, chap_auth_error, chap_target_error,
  chap_initiator_auth_create_challenge, check_response, chap_initiator_auth_check_response,
  then_respond, cmnd_exec_auth_chap,
}
use tgt.Iscsi.Conn.Answers.{Answers, check_response-Answers}
use tgt.Iscsi.Conn.Phases.{
  has_failed, Flow, returns, onward, cmnd_exec_auth, after_auth, security_stage, login_stage,
  follow, clear_rsp, cmnd_exec_login,
}
use tgt.Iscsi.Conn.Transit.{
  is_response, IsGuarded, Allowed-in, drop_login-IsGuarded, transit-IsGuarded,
}
use tgt.Iscsi.Conn.Stages.{
  result, choose_method-IsGuarded, start_security-IsGuarded, negotiate_login-IsGuarded,
  start_login-IsGuarded,
}

module _ (p : Portal) where
  login_stage-IsGuarded :
      (req : Request) (c : Conn) → IsGuarded p c → IsGuarded p (result (login_stage p req c))
  unfolding login_stage
  login_stage-IsGuarded req c g = by_state c.state refl
    where
      by_state : (s : ConnState) → c.state ≡ s → IsGuarded p (result (login_stage p req c))
      by_state State.state_free e = rw (e, login_stage) (start_login-IsGuarded p req c g.unanswered)
      by_state State.state_login e = rw (e, login_stage) (negotiate_login-IsGuarded p req c g)
      by_state _ e =
          rw (e, login_stage) (drop_login-IsGuarded p State.login_init_err c g.unanswered)

  after_auth-IsGuarded :
      (r : AuthResult × Conn)
      → r.1.state ≡ State.state_security_auth
      → is_response r.1.auth_state ≡ false
      → IsGuarded p (result (after_auth p r))
  after_auth-IsGuarded (auth_ok, c) e h = record { allowed = rw e tt; unanswered = h }
  after_auth-IsGuarded (chap_initiator_error, c) e h = record { allowed = tt; unanswered = h }
  after_auth-IsGuarded (chap_auth_error, c) e h = record { allowed = tt; unanswered = h }
  after_auth-IsGuarded (chap_target_error, c) e h = record { allowed = tt; unanswered = h }

  wrong_answer :
      (w : Chance) (bytes : List ℕ) (c : Conn)
      → c.state ≡ State.state_security_auth
      → is_response c.auth_state ≡ false
      → check_response p w bytes c ≢ auth_ok
      → IsGuarded p (
          result (
            after_auth p (then_respond p w bytes (chap_initiator_auth_check_response p w bytes c))))
  unfolding chap_initiator_auth_check_response
  wrong_answer w bytes c e h wrong = by_result (check_response p w bytes c) refl
    where
      by_result :
          (r : AuthResult)
          → check_response p w bytes c ≡ r
          → IsGuarded p (
              result (
                after_auth p
                  (then_respond p w bytes (chap_initiator_auth_check_response p w bytes c))))
      by_result auth_ok f = absurd (wrong f)
      by_result chap_initiator_error f =
          rw (f, chap_initiator_auth_check_response) (record { allowed = tt; unanswered = h })
      by_result chap_auth_error f =
          rw (f, chap_initiator_auth_check_response) (record { allowed = tt; unanswered = h })
      by_result chap_target_error f =
          rw (f, chap_initiator_auth_check_response) (record { allowed = tt; unanswered = h })

  create_challenge-keeps :
      (w : Chance) (bytes : List ℕ) (c : Conn)
      → c.state ≡ State.state_security_auth
      → is_response c.auth_state ≡ false
      → ((chap_initiator_auth_create_challenge p w bytes c).1.state ≡ State.state_security_auth)
        × (is_response (chap_initiator_auth_create_challenge p w bytes c).1.auth_state ≡ false)
  unfolding chap_initiator_auth_create_challenge
  create_challenge-keeps w bytes c e h = ground (arith, e, h)

  cmnd_exec_auth-IsGuarded :
      (w : Chance) (req : Request) (c : Conn)
      → c.state ≡ State.state_security_auth
      → is_response c.auth_state ≡ false
      → ¬ Answers p w req c
      → IsGuarded p (result (after_auth p (cmnd_exec_auth p w req c)))
  unfolding cmnd_exec_auth cmnd_exec_auth_chap
  cmnd_exec_auth-IsGuarded w req c e h wrong = by_method c.auth_method refl
    where
      by_step :
          (s : AuthState)
          → c.auth_state ≡ s
          → IsGuarded p (result (after_auth p (cmnd_exec_auth_chap p w req.req_data c)))
      by_step auth_state_start f =
          rw (f, cmnd_exec_auth_chap)
            (let k = create_challenge-keeps w req.req_data c e h in
              after_auth-IsGuarded (chap_initiator_auth_create_challenge p w req.req_data c) k.0
                k.1)
      by_step auth_state_challenge f =
          rw (f, cmnd_exec_auth_chap)
            (wrong_answer w req.req_data c e h
              (λ right. wrong (check_response-Answers p w req c right)))
      by_step auth_state_response f = absurd (cc (ap is_response f, h))

      by_method :
          (m : AuthMethod)
          → c.auth_method ≡ m
          → IsGuarded p (result (after_auth p (cmnd_exec_auth p w req c)))
      by_method auth_unknown f = rw (f, cmnd_exec_auth) (record { allowed = tt; unanswered = h })
      by_method auth_none f = rw (f, cmnd_exec_auth) (record { allowed = rw e tt; unanswered = h })
      by_method auth_chap f = rw (f, cmnd_exec_auth) (by_step c.auth_state refl)

  security_stage-IsGuarded :
      (w : Chance) (req : Request) (c : Conn)
      → IsGuarded p c
      → has_failed c ≡ false
      → ¬ Answers p w req c
      → IsGuarded p (result (security_stage p w req c))
  unfolding security_stage
  security_stage-IsGuarded w req c g works wrong = by_state c.state refl
    where
      by_state : (s : ConnState) → c.state ≡ s → IsGuarded p (result (security_stage p w req c))
      by_state State.state_free e =
          rw (e, security_stage) (start_security-IsGuarded p req c g.unanswered works)
      by_state State.state_security e =
          rw (e, security_stage)
            (choose_method-IsGuarded p req c (record {
              method = inr (rw (Allowed-in p e g).0 (Allowed-in p e g).1);
              unanswered = g.unanswered;
              works = works;
            }))
      by_state State.state_security_auth e =
          rw (e, security_stage) (cmnd_exec_auth-IsGuarded w req c e g.unanswered wrong)
      by_state _ e =
          rw (e, security_stage) (drop_login-IsGuarded p State.login_init_err c g.unanswered)

  follow-IsGuarded :
      (req : Request) (f : Flow) → IsGuarded p (result f) → IsGuarded p (follow p req f)
  follow-IsGuarded req (returns c) g = g
  follow-IsGuarded req (onward stay c) g = transit-IsGuarded p stay req c g

  clear_rsp-IsGuarded : (stage : ℕ) (c : Conn) → IsGuarded p c → IsGuarded p (clear_rsp p stage c)
  clear_rsp-IsGuarded stage c g = record { allowed = g.allowed; unanswered = g.unanswered }

  -- The answer depends on the target and the challenge alone.
  pub Answers-transfer :
      (w : Chance) (req : Request) (c d : Conn)
      → d.tid ≡ c.tid
      → d.chap ≡ c.chap
      → Answers p w req c
      → Answers p w req d
  Answers-transfer w req c d same_tid same_chap a = record {
    name = a.name;
    secret = a.secret;
    answer = a.answer;
    format = a.format;
    alg = a.alg;
    written = a.written;
    named = a.named;
    known = rw same_tid a.known;
    given = a.given;
    coded = a.coded;
    chosen = rw same_chap a.chosen;
    decoded = a.decoded;
    right = rw same_chap a.right;
  }

  pub cmnd_exec_login-IsGuarded :
      (w : Chance) (req : Request) (c : Conn)
      → IsGuarded p c
      → ¬ Answers p w req c
      → IsGuarded p (cmnd_exec_login p w req c)
  unfolding cmnd_exec_login
  cmnd_exec_login-IsGuarded w req c g wrong =
      elim (Bool-cases (not (req.opcode % 64 == 3) || not (bit req.opcode 6))) [
        | inl rejected ↦
            rw (rejected, cmnd_exec_login)
              (record { allowed = g.allowed; unanswered = g.unanswered })
        | inr login ↦ elim (Bool-cases (req.min_version == 0)) [
          | inr newer ↦
              rw (login, newer, cmnd_exec_login)
                (record { allowed = tt; unanswered = g.unanswered })
          | inl version ↦ elim (Bool-cases (req.flags / 4 % 4 == 0)) [
            | inl security ↦
                rw (login, version, security, cmnd_exec_login)
                  (follow-IsGuarded req (security_stage p w req (clear_rsp p 0 c)) (
                    security_stage-IsGuarded w req (clear_rsp p 0 c) (clear_rsp-IsGuarded 0 c g)
                      refl (λ a. wrong (Answers-transfer w req (clear_rsp p 0 c) c refl refl a))))
            | inr later ↦ elim (Bool-cases (req.flags / 4 % 4 == 1)) [
              | inl login_phase ↦
                  rw (login, version, later, login_phase, cmnd_exec_login)
                    (follow-IsGuarded req (login_stage p req (clear_rsp p 1 c))
                      (login_stage-IsGuarded req (clear_rsp p 1 c) (clear_rsp-IsGuarded 1 c g)))
              | inr no_phase ↦
                  rw (login, version, later, no_phase, cmnd_exec_login)
                    (record { allowed = tt; unanswered = g.unanswered })
            ]
          ]
        ]
      ]
