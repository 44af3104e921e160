-- ===== src/Target/Account.antt =====
-- The accounts of CHAP, usr/target.c: a list of users, and for each target the accounts that it
-- accepts and the one that it answers with.
use tgt.Base.{
  ℕ, zero, suc, ◌+◌, ◌-◌, ◌*◌, ◌^◌, Bool, true, false, not, ◌&&◌, Option, none, some, List, [], ◌∷◌,
  ◌++◌, ◌==◌, ltb, if◌then◌else◌, is_some, same_text, set, take, replicate,
}
use tgt.Target.Lookup.{
  global_tid, AdmErr, tgtadm_success, tgtadm_unknown_err, tgtadm_nomem, tgtadm_no_target,
  tgtadm_user_exist, tgtadm_no_user, tgtadm_too_many_user, tgtadm_outaccount_exist, ScsiTarget,
  target_lookup, put_target,
}

-- `struct account_entry`
pub record Account : Type 0 where
  pub aid : ℕ
  pub user : List ℕ
  pub password : List ℕ

-- `account_list`, `target_list` and `global_target`.
pub record Admin : Type 0 where
  pub account_list : List Account
  pub target_list : List ScsiTarget
  pub global_target : ScsiTarget

-- ACCOUNT_TYPE_*
pub data AccountType : Type 0 where
  account_incoming account_outgoing : AccountType

abbrev pub int_max : ℕ
int_max = 2 ^ 31 - 1

unfoldable pub account_lookup_id : ℕ → List Account → Option Account
account_lookup_id aid [] = none
account_lookup_id aid (ac ∷ acs) = if ac.aid == aid then some ac else account_lookup_id aid acs

unfoldable pub account_lookup_user : List ℕ → List Account → Option Account
account_lookup_user user [] = none
account_lookup_user user (ac ∷ acs) =
    if same_text ac.user user then some ac else account_lookup_user user acs

unfoldable pub the_target : ℕ → Admin → Option ScsiTarget
unfolding target_lookup
the_target tid s =
    if tid == global_tid then some s.global_target else target_lookup tid s.target_list

unfoldable pub write_target : ℕ → ScsiTarget → Admin → Admin
unfolding put_target
write_target tid t s =
    if tid == global_tid
    then record s { global_target = t }
    else record s { target_list = put_target tid t s.target_list }

-- The loop over `i < nr_inaccount`, for the places from `i` on. A place beyond the end of
-- `in_aids` is not read.
unfoldable pub find_incoming : ℕ → List ℕ → List ℕ → List Account → Option Account
unfolding account_lookup_id
find_incoming zero aids user acs = none
find_incoming (suc n) [] user acs = none
find_incoming (suc n) (aid ∷ aids) user acs =
    let rest = find_incoming n aids user acs in
    elim (account_lookup_id aid acs) [
      | none ↦ rest
      | some ac ↦ if same_text ac.user user then some ac else rest
    ]

abbrev pub credentials : ℕ → List ℕ → Account → List ℕ × List ℕ
credentials plen user ac = (user, take plen ac.password)

-- The user's name, and the password as far as `plen` bytes take it; `ulen` bounds the name.
unfoldable pub account_lookup : ℕ → AccountType → List ℕ → ℕ → ℕ → Admin → Option (List ℕ × List ℕ)
unfolding the_target find_incoming
account_lookup tid account_incoming user ulen plen s = elim (the_target tid s) [
  | none ↦ none
  | some t ↦ elim (find_incoming t.nr_inaccount t.in_aids user s.account_list) [
    | none ↦ none
    | some ac ↦ some (credentials plen user ac)
  ]
]
account_lookup tid account_outgoing user ulen plen s = elim (the_target tid s) [
  | none ↦ none
  | some t ↦ elim (account_lookup_id t.out_aid s.account_list) [
    | none ↦ none
    | some ac ↦ some (credentials plen (take ulen ac.user) ac)
  ]
]

-- The loop for a free number, with fuel: it ends at INT_MAX at the latest.
unfoldable pub free_aid : ℕ → ℕ → List Account → ℕ
unfolding account_lookup_id
free_aid zero aid acs = aid
free_aid (suc fuel) aid acs =
    let next = free_aid fuel (aid + 1) acs in
    if is_some (account_lookup_id aid acs) && ltb aid int_max then next else aid

-- `memory` is whether `zalloc` and `strdup` give memory.
unfoldable pub account_add : Bool → List ℕ → List ℕ → Admin → AdmErr × Admin
unfolding account_lookup_user
account_add memory user password s =
    let aid = free_aid int_max 1 s.account_list in
    if is_some (account_lookup_user user s.account_list)
    then (tgtadm_user_exist, s)
    else if aid == int_max
    then (tgtadm_too_many_user, s)
    else if not memory
    then (tgtadm_nomem, s)
    else (
      tgtadm_success,
      record s {
        account_list = record { aid = aid; user = user; password = password } ∷ s.account_list;
      },
    )

unfoldable pub has_aid : ℕ → List ℕ → Bool
has_aid aid [] = false
has_aid aid (a ∷ more) = if a == aid then true else has_aid aid more

-- The first place that holds `old` gets `new`; `none` where there is no such place.
unfoldable pub replace_aid : ℕ → ℕ → List ℕ → Option (List ℕ)
replace_aid old new [] = none
replace_aid old new (a ∷ more) =
    let rest = replace_aid old new more in
    if a == old then some (new ∷ more) else elim rest [ none ↦ none | some bs ↦ some (a ∷ bs) ]

-- A new array of twice the size. For the global target, whose array is static, the `free` of the
-- old one is not followed.
unfoldable pub grow_aids : ℕ → ScsiTarget → ScsiTarget
grow_aids aid t = record t {
  in_aids =
      set (t.in_aids ++ replicate (t.max_inaccount * 2 - t.max_inaccount) 0) t.max_inaccount aid;
  max_inaccount = t.max_inaccount * 2;
  nr_inaccount = t.nr_inaccount + 1;
}

unfoldable pub inaccount_bind : Bool → ℕ → ScsiTarget → AdmErr × ScsiTarget
unfolding has_aid replace_aid grow_aids
inaccount_bind memory aid t =
    if has_aid aid t.in_aids
    then (tgtadm_user_exist, t)
    else if ltb t.nr_inaccount t.max_inaccount
    then elim (replace_aid 0 aid t.in_aids) [
      | none ↦ (tgtadm_unknown_err, t)
      | some aids ↦ (tgtadm_success, record t { in_aids = aids; nr_inaccount = t.nr_inaccount + 1 })
    ]
    else if not memory
    then (tgtadm_nomem, t)
    else (tgtadm_success, grow_aids aid t)

unfoldable pub inaccount_unbind : ℕ → ScsiTarget → AdmErr × ScsiTarget
unfolding replace_aid
inaccount_unbind aid t = elim (replace_aid aid 0 t.in_aids) [
  | none ↦ (tgtadm_no_user, t)
  | some aids ↦ (tgtadm_success, record t { in_aids = aids; nr_inaccount = t.nr_inaccount - 1 })
]

unfoldable pub outaccount_bind : ℕ → ScsiTarget → AdmErr × ScsiTarget
outaccount_bind aid t =
    if not (t.out_aid == 0)
    then (tgtadm_outaccount_exist, t)
    else (tgtadm_success, record t { out_aid = aid })

unfoldable pub outaccount_unbind : ℕ → ScsiTarget → AdmErr × ScsiTarget
outaccount_unbind aid t =
    if t.out_aid == aid then (tgtadm_success, record t { out_aid = 0 }) else (tgtadm_no_user, t)

-- What `account_ctl` does to the target; `true` is to bind.
unfoldable pub ctl_target : Bool → AccountType → Bool → ℕ → ScsiTarget → AdmErr × ScsiTarget
unfolding inaccount_bind inaccount_unbind outaccount_bind outaccount_unbind
ctl_target memory account_incoming true aid t = inaccount_bind memory aid t
ctl_target memory account_incoming false aid t = inaccount_unbind aid t
ctl_target memory account_outgoing true aid t = outaccount_bind aid t
ctl_target memory account_outgoing false aid t = outaccount_unbind aid t

abbrev pub written : ℕ → Admin → AdmErr × ScsiTarget → AdmErr × Admin
written tid s (err, t) = (err, write_target tid t s)

unfoldable pub account_ctl : Bool → ℕ → AccountType → List ℕ → Bool → Admin → AdmErr × Admin
unfolding the_target account_lookup_user ctl_target write_target
account_ctl memory tid type user bind s = elim (the_target tid s) [
  | none ↦ (tgtadm_no_target, s)
  | some t ↦ elim (account_lookup_user user s.account_list) [
    | none ↦ (tgtadm_no_user, s)
    | some ac ↦ written tid s (ctl_target memory type bind ac.aid t)
  ]
]

-- An account is unbound from a target, and the results are not looked at.
unfoldable pub unbind_both : ℕ → List ℕ → Admin → Admin
unfolding account_ctl
unbind_both tid user s =
    (account_ctl true tid account_outgoing user false
      (account_ctl true tid account_incoming user false s).1).1

unfoldable pub unbind_all : List ScsiTarget → List ℕ → Admin → Admin
unfolding unbind_both
unbind_all [] user s = s
unbind_all (t ∷ ts) user s = unbind_all ts user (unbind_both t.tid user s)

-- The first account with the user's name is taken off the list.
unfoldable pub drop_account : List ℕ → List Account → List Account
drop_account user [] = []
drop_account user (ac ∷ acs) =
    let rest = drop_account user acs in if same_text ac.user user then acs else ac ∷ rest

unfoldable pub account_del : List ℕ → Admin → AdmErr × Admin
unfolding account_lookup_user unbind_all drop_account
account_del user s = elim (account_lookup_user user s.account_list) [
  | none ↦ (tgtadm_no_user, s)
  | some ac ↦
      let s' = unbind_both global_tid user (unbind_all s.target_list user s) in
      (tgtadm_success, record s' { account_list = drop_account user s'.account_list })
]

unfoldable pub account_available : ℕ → AccountType → Admin → ℕ
unfolding the_target
account_available tid account_incoming s = elim (the_target tid s) [
  | none ↦ 0
  | some t ↦ t.nr_inaccount
]
account_available tid account_outgoing s = elim (the_target tid s) [ none ↦ 0 | some t ↦ t.out_aid ]
