-- ===== src/Tests/Account.antt =====
-- Accounts that are added, bound and unbound.
use tgt.Base.{ℕ, ◌≡◌, refl, true, false, none, some, List, [], ◌∷◌, text, replicate, arith}
use tgt.Target.Lookup.{global_tid, ScsiTarget}
use tgt.Target.Account.{
  Account, Admin, account_incoming, account_lookup_id, account_lookup_user, the_target,
  write_target, free_aid, account_lookup, account_add, account_ctl, account_available, has_aid,
}
use tgt.Target.Places.{IsDistinct-replicate}
use tgt.Target.AccountPlaces.{HasPlaces}
use tgt.Target.AccountKept.{
  AccountRequest, add_user, del_user, ctl_user, perform_all, IsConsistent, perform_all-IsConsistent,
}
use tgt.Target.AccountHidden.{unbound-hides}
use tgt.Iscsi.Acl.{iqn_acl}
use tgt.Iscsi.Conn.Execute.{rx_end}
use tgt.Iscsi.Conn.Find.{text_key_find}
use tgt.Iscsi.Conn.State.{Conn}
use tgt.Iscsi.Conn.Answers.{Answers}
use tgt.Iscsi.Conn.Transit.{is_open}
use tgt.Iscsi.Conn.Attempts.{arrives, receives}
use tgt.Iscsi.Conn.Administered.{with_admin, bound-closed}
use tgt.Tests.Login.{portal, chance, arrived, hasty}

abbrev empty_target : ℕ → ScsiTarget
empty_target n = record {
  tid = n;
  acl_list = [];
  iqn_acl_list = [];
  in_aids = replicate 16 0;
  nr_inaccount = 0;
  max_inaccount = 16;
  out_aid = 0;
}

abbrev one_target : Admin
one_target = record {
  account_list = [];
  target_list = empty_target 1 ∷ [];
  global_target = empty_target global_tid;
}

empty_target-HasPlaces : (n : ℕ) → HasPlaces (empty_target n)
unfolding has_aid
empty_target-HasPlaces n = record {
  room = omega arith;
  sized = refl;
  counted = refl;
  distinct = IsDistinct-replicate 16;
}

one_target-IsConsistent : IsConsistent one_target
one_target-IsConsistent = record {
  accounts = tt;
  targets = (empty_target-HasPlaces 1, tt);
  global = empty_target-HasPlaces global_tid;
}

abbrev two_users : List AccountRequest
two_users =
    add_user true (text "u") (text "pw")
    ∷ add_user true (text "v") (text "px")
    ∷ ctl_user true 1 account_incoming (text "u") true
    ∷ ctl_user true 1 account_incoming (text "v") true
    ∷ []

perform_all-IsConsistent_example :
    IsConsistent (perform_all (del_user (text "u") ∷ []) (perform_all two_users one_target))
perform_all-IsConsistent_example =
    perform_all-IsConsistent (del_user (text "u") ∷ []) (perform_all two_users one_target)
      (perform_all-IsConsistent two_users one_target one_target-IsConsistent)

abbrev places : List ℕ
places = 1 ∷ 2 ∷ replicate 14 0

abbrev bound_target : ScsiTarget
bound_target = record (empty_target 1) { in_aids = places; nr_inaccount = 2 }

abbrev account_u : Account
account_u = record { aid = 1; user = text "u"; password = text "pw" }

abbrev account_v : Account
account_v = record { aid = 2; user = text "v"; password = text "px" }

-- What the requests leave, written out.
abbrev users_bound : Admin
users_bound = record {
  account_list = account_v ∷ account_u ∷ [];
  target_list = bound_target ∷ [];
  global_target = empty_target global_tid;
}

performed : perform_all two_users one_target ≡ users_bound
unfolding account_add account_ctl write_target free_aid
performed = refl

unbound-hides_example :
    (account_lookup 1 account_incoming
        (text "v")
        0
        256
        (account_ctl true 1 account_incoming (text "u") false users_bound).1
      ≡ none)
    × (account_available 1 account_incoming
          (account_ctl true 1 account_incoming (text "u") false users_bound).1
        ≡ 1)
unfolding the_target account_lookup_user account_lookup_id
unbound-hides_example =
    unbound-hides true 1 14 256 (text "u") (text "v") account_u account_v bound_target users_bound
      ((λ e. omega (arith, e)), refl, refl, ((λ e. omega (arith, e)), refl, refl, tt)) refl refl
      refl refl

-- Before, the second user is found.
found_before :
    account_lookup 1 account_incoming (text "v") 0 256 users_bound ≡ some (text "v", text "px")
unfolding account_lookup the_target
found_before = refl

abbrev asking : Conn
asking = rx_end (with_admin (perform_all two_users one_target) portal) chance hasty arrived

no_challenge : ¬ Answers (with_admin (perform_all two_users one_target) portal) chance hasty arrived
no_challenge a = absurd (cc (a.chosen))

bound-closed_example : is_open asking.state ≡ false
unfolding account_add account_ctl the_target write_target free_aid account_available iqn_acl rx_end
    text_key_find has_aid
bound-closed_example =
    bound-closed two_users one_target portal bound_target 2 one_target-IsConsistent refl
      (λ e. omega (arith, e)) refl (receives chance hasty (arrives refl refl) no_challenge)
