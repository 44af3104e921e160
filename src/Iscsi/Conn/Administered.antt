-- ===== src/Iscsi/Conn/Administered.antt =====
-- A login with the accounts and the access lists that usr/target.c administers.
use tgt.Base.{
  ℕ, ◌≡◌, ◌≢◌, ◌<◌, arith, true, false, not, Option, none, some, List, [], ◌∷◌, ◌==◌, Bool-cases,
  inl, inr,
}
use tgt.Target.Lookup.{ScsiTarget}
use tgt.Target.Account.{
  Admin, account_incoming, account_outgoing, the_target, has_aid, account_lookup, account_available,
}
use tgt.Target.Places.{bound}
use tgt.Target.AccountKept.{
  AccountRequest, perform_all, IsConsistent, perform_all-IsConsistent, the_target-HasPlaces,
}
use tgt.Iscsi.Acl.{iqn_acl}
use tgt.Iscsi.Conn.State.{Conn}
use tgt.Iscsi.Conn.Portal.{Portal}
use tgt.Iscsi.Conn.Transit.{is_open}
use tgt.Iscsi.Conn.Attempts.{Attempts, Attempts-closed}

-- ISCSI_NAME_LEN
abbrev pub iscsi_name_len : ℕ
iscsi_name_len = 256

abbrev pub password_of : Option (List ℕ × List ℕ) → Option (List ℕ)
password_of none = none
password_of (some (user, password)) = some password

-- The look-ups that chap.c and iscsid.c make of a target.
abbrev pub with_admin : Admin → Portal → Portal
with_admin s p = record p {
  available = λ tid. not (account_available tid account_incoming s == 0);
  incoming = λ tid user. password_of (account_lookup tid account_incoming user 0 iscsi_name_len s);
  outgoing = λ tid. account_lookup tid account_outgoing [] iscsi_name_len iscsi_name_len s;
  iqn_acl = λ tid name. iqn_acl s.target_list tid name;
}

bound_positive : (aid : ℕ) (es : List ℕ) → aid ≢ 0 → has_aid aid es ≡ true → 0 < bound es
unfolding has_aid
bound_positive aid [] h e = absurd (cc e)
bound_positive aid (a ∷ es) h e = elim (Bool-cases (a == aid)) [
  | inl f ↦ ground (arith, h, f)
  | inr f ↦ let rest = bound_positive aid es h (rw f at e) in ground (arith, rest)
]

counted_available :
    (tid aid : ℕ) (t : ScsiTarget) (s : Admin)
    → IsConsistent s
    → the_target tid s ≡ some t
    → aid ≢ 0
    → has_aid aid t.in_aids ≡ true
    → account_available tid account_incoming s ≢ 0
unfolding account_available
counted_available tid aid t s v found h e =
    let places = the_target-HasPlaces tid s t v found in
    let some_bound = bound_positive aid t.in_aids h e in
    rw (found, account_available) (λ z. omega (arith, z, places.counted, some_bound))

-- Whatever an administrator has done with the accounts since a state that was consistent, as long as
-- an account is bound to a target for incoming authentication, a connection to that target which
-- never sent the right answer to a challenge is in none of the states from the end of the security
-- stage to the full feature phase. The accounts do not change while the connection lives.
pub bound-closed :
    (rs : List AccountRequest) (s : Admin) (p : Portal) {c : Conn} (t : ScsiTarget) (aid : ℕ)
    → IsConsistent s
    → the_target c.tid (perform_all rs s) ≡ some t
    → aid ≢ 0
    → has_aid aid t.in_aids ≡ true
    → Attempts (with_admin (perform_all rs s) p) c
    → is_open c.state ≡ false
bound-closed rs s p {c} t aid v found h taken a =
    let some_account =
      counted_available c.tid aid t (perform_all rs s) (perform_all-IsConsistent rs s v) found h
        taken in
    let asked : not (account_available c.tid account_incoming (perform_all rs s) == 0) ≡ true =
      ground (arith, some_account) in
    Attempts-closed (with_admin (perform_all rs s) p) a asked
