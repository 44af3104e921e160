-- ===== src/Iscsi/Conn/Attempts.antt =====
-- A connection of usr/iscsi/iscsid.c from its start on, whose requests never give the right answer
-- to a challenge.
use tgt.Base.{◌%◌, ◌≡◌, ◌⊎◌, refl, inl, inr, sym, subst, Bool, true, false, ◌==◌, Bool-cases}
use tgt.Iscsi.Security.{AuthMethod}
use tgt.Iscsi.Conn.State
use tgt.Iscsi.Conn.State.{
  Conn, ConnState, Request, SessionType, session_normal, session_discovery, auth_state_start,
}
use tgt.Iscsi.Conn.Portal.{Portal, Chance}
use tgt.Iscsi.Conn.Phases.{cmnd_exec_login, cmnd_finish}
use tgt.Iscsi.Conn.Execute.{
  conn_write_pdu, cmnd_execute, close_on, rx_end, take_over, tx_end, tx_finish, write_login,
}
use tgt.Iscsi.Conn.Text.{tx_init_data}
use tgt.Iscsi.Conn.Answers.{Answers}
use tgt.Iscsi.Conn.Transit.{is_open, Allowed, is_response, IsGuarded, Keeps-IsGuarded, Allowed-in}
use tgt.Iscsi.Conn.TextKeeps.{cmnd_exec_text-Keeps}
use tgt.Iscsi.Conn.Authenticated.{Answers-transfer, cmnd_exec_login-IsGuarded}

-- The requests that a new connection has received, none of them with the right answer, and the
-- responses that were sent.
pub data Attempts (p : Portal) : Conn → Type 0 where
  arrives : {c : Conn} → c.state ≡ State.state_free → c.auth_state ≡ auth_state_start → Attempts p c
  receives :
      (w : Chance) (req : Request) {c : Conn}
      → Attempts p c
      → ¬ Answers p w req c
      → Attempts p (rx_end p w req c)
  sends : {c : Conn} → Attempts p c → Attempts p (tx_end p c)

module _ (p : Portal) where
  cmnd_execute-login :
      (w : Chance) (req : Request) (c : Conn)
      → (req.opcode % 64 == 3) ≡ true
      → cmnd_execute p w req c ≡ (false, write_login (cmnd_exec_login p w req c))
  unfolding cmnd_execute
  cmnd_execute-login w req c e = rw (e, cmnd_execute) refl

  cmnd_execute-IsGuarded :
      (w : Chance) (req : Request) (c : Conn)
      → IsGuarded p c
      → ¬ Answers p w req c
      → IsGuarded p (cmnd_execute p w req c).1
  unfolding cmnd_execute
  cmnd_execute-IsGuarded w req c g wrong = elim (Bool-cases (req.opcode % 64 == 3)) [
    | inl login ↦
        subst (λ r. IsGuarded p r.1) (sym (cmnd_execute-login w req c login))
          (let h = cmnd_exec_login-IsGuarded p w req c g wrong in
            record { allowed = h.allowed; unanswered = h.unanswered })
    | inr later ↦ elim (Bool-cases (req.opcode % 64 == 4)) [
      | inl text ↦
          rw (later, text, cmnd_execute) (Keeps-IsGuarded p (cmnd_exec_text-Keeps p req c) g)
      | inr other ↦ elim (Bool-cases (req.opcode % 64 == 6)) [
        | inl logout ↦
            rw (later, other, logout, cmnd_execute)
              (record { allowed = g.allowed; unanswered = g.unanswered })
        | inr unknown ↦
            rw (later, other, unknown, cmnd_execute)
              (record { allowed = g.allowed; unanswered = g.unanswered })
      ]
    ]
  ]

  close_on-IsGuarded : (r : Bool × Conn) → IsGuarded p r.1 → IsGuarded p (close_on p r)
  close_on-IsGuarded (true, c) g = record { allowed = tt; unanswered = g.unanswered }
  close_on-IsGuarded (false, c) g = g

  rx_end-IsGuarded :
      (w : Chance) (req : Request) (c : Conn)
      → IsGuarded p c
      → ¬ Answers p w req c
      → IsGuarded p (rx_end p w req c)
  unfolding rx_end
  rx_end-IsGuarded w req c g wrong =
      close_on-IsGuarded (cmnd_execute p w req (conn_write_pdu req c)) (
        cmnd_execute-IsGuarded w req (conn_write_pdu req c)
          (record { allowed = g.allowed; unanswered = g.unanswered })
          (λ a. wrong (Answers-transfer p w req (conn_write_pdu req c) c refl refl a)))

  -- The state that a session begins with.
  taken_over :
      (c : Conn)
      → p.available c.tid ≡ false
      → is_response c.auth_state ≡ false
      → IsGuarded p (take_over p c)
  taken_over c free h = elim (Bool-cases (p.take_fd c)) [
    | inl e ↦ rw e (record { allowed = free; unanswered = h })
    | inr e ↦ rw e (record { allowed = tt; unanswered = h })
  ]

  begun-IsGuarded :
      (t : SessionType) (c : Conn)
      → c.session_type ≡ t
      → (c.state ≡ State.state_security_full) ⊎ (c.state ≡ State.state_login_full)
      → p.available c.tid ≡ false
      → is_response c.auth_state ≡ false
      → IsGuarded p (tx_finish p c)
  unfolding tx_finish cmnd_finish
  begun-IsGuarded session_normal c e (inl s) free h =
      rw (s, e, tx_finish)
        (taken_over (record c { state = State.state_kernel; session_type = session_normal }) free h)
  begun-IsGuarded session_normal c e (inr s) free h =
      rw (s, e, tx_finish)
        (taken_over (record c { state = State.state_kernel; session_type = session_normal }) free h)
  begun-IsGuarded session_discovery c e (inl s) free h =
      rw (s, e, tx_finish) (record { allowed = free; unanswered = h })
  begun-IsGuarded session_discovery c e (inr s) free h =
      rw (s, e, tx_finish) (record { allowed = free; unanswered = h })

  tx_finish-IsGuarded : (c : Conn) → IsGuarded p c → IsGuarded p (tx_finish p c)
  unfolding tx_finish cmnd_finish
  tx_finish-IsGuarded c g = by_state c.state refl
    where
      by_state : (s : ConnState) → c.state ≡ s → IsGuarded p (tx_finish p c)
      by_state State.state_exit e =
          rw (e, tx_finish) (record { allowed = tt; unanswered = g.unanswered })
      by_state State.state_security_login e =
          rw (e, tx_finish) (record { allowed = Allowed-in p e g; unanswered = g.unanswered })
      by_state State.state_security_full e =
          begun-IsGuarded c.session_type c refl (inl e) (Allowed-in p e g) g.unanswered
      by_state State.state_login_full e =
          begun-IsGuarded c.session_type c refl (inr e) (Allowed-in p e g) g.unanswered
      by_state State.state_kernel e =
          rw (e, tx_finish)
            (taken_over (record c { state = State.state_kernel }) (Allowed-in p e g) g.unanswered)
      by_state _ e =
          rw (e, tx_finish) (record { allowed = Allowed-in p e g; unanswered = g.unanswered })

  tx_end-IsGuarded : (c : Conn) → IsGuarded p c → IsGuarded p (tx_end p c)
  unfolding tx_end tx_init_data
  tx_end-IsGuarded c g =
      tx_finish-IsGuarded (tx_init_data c)
        (record { allowed = g.allowed; unanswered = g.unanswered })

  Attempts-IsGuarded : {c : Conn} → Attempts p c → IsGuarded p c
  Attempts-IsGuarded (arrives e s) = record { allowed = rw e tt; unanswered = rw s refl }
  Attempts-IsGuarded (receives w req {c} a wrong) =
      rx_end-IsGuarded w req c (Attempts-IsGuarded a) wrong
  Attempts-IsGuarded (sends {c} a) = tx_end-IsGuarded c (Attempts-IsGuarded a)

open_asks_nothing :
    (s : ConnState) (a : Bool) (m : AuthMethod) → Allowed s a m → a ≡ true → is_open s ≡ false
open_asks_nothing State.state_free a m h asked = refl
open_asks_nothing State.state_security a m h asked = refl
open_asks_nothing State.state_security_auth a m h asked = refl
open_asks_nothing State.state_close a m h asked = refl
open_asks_nothing State.state_exit a m h asked = refl
open_asks_nothing _ a m h asked = absurd (cc (h, asked))

-- Where a target has an account for incoming authentication, a connection to it that never sent the
-- right answer to a challenge, the name of an account with the digest of the challenge and the
-- account's password, is in none of the states from the end of the security stage to the full
-- feature phase, whatever login, text, logout or other requests it has made and in whatever order.
-- The accounts are as they were when the connection began.
pub Attempts-closed :
    (p : Portal) {c : Conn} → Attempts p c → p.available c.tid ≡ true → is_open c.state ≡ false
Attempts-closed p {c} a asked =
    open_asks_nothing c.state (p.available c.tid) c.auth_method (Attempts-IsGuarded p a).allowed
      asked
