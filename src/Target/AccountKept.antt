-- ===== src/Target/AccountKept.antt =====
-- What the administration of accounts in usr/target.c keeps.
use tgt.Base.{
  ℕ, ◌≡◌, ◌≢◌, ◌≤◌, ◌⊎◌, subst, inl, inr, Bool, true, false, none, some, some_injective, List, [],
  ◌∷◌, ◌==◌, arith, Bool-cases, Option-cases, All,
}
use tgt.Target.Lookup.{global_tid, ScsiTarget, target_lookup, put_target}
use tgt.Target.Account.{
  Admin, AccountType, account_incoming, account_outgoing, int_max, account_lookup_id,
  account_lookup_user, the_target, write_target, free_aid, account_add, ctl_target, account_ctl,
  unbind_both, unbind_all, account_del,
}
use tgt.Target.AccountPlaces.{HasPlaces, ctl_target-HasPlaces}
use tgt.Target.AccountList.{
  AreApart, account_lookup_user-nonzero, free_aid-free, drop_account-AreApart,
}

pub record IsConsistent (s : Admin) : Type 0 where
  pub accounts : AreApart s.account_list
  pub targets : All HasPlaces s.target_list
  pub global : HasPlaces s.global_target

put_target-All :
    (tid : ℕ) (t : ScsiTarget) (ts : List ScsiTarget)
    → HasPlaces t
    → All HasPlaces ts
    → All HasPlaces (put_target tid t ts)
unfolding put_target
put_target-All tid t [] h v = tt
put_target-All tid t (u ∷ us) h v = elim (Bool-cases (u.tid == tid)) [
  | inl e ↦ rw (e, put_target) (h, v.1)
  | inr e ↦ rw (e, put_target) (v.0, put_target-All tid t us h v.1)
]

target_lookup-All :
    (tid : ℕ) (ts : List ScsiTarget) (t : ScsiTarget)
    → All HasPlaces ts
    → target_lookup tid ts ≡ some t
    → HasPlaces t
unfolding target_lookup
target_lookup-All tid [] t v h = absurd (cc h)
target_lookup-All tid (u ∷ us) t v h = elim (Bool-cases (u.tid == tid)) [
  | inl e ↦ subst HasPlaces (some_injective (rw e at h)) v.0
  | inr e ↦ target_lookup-All tid us t v.1 (rw e at h)
]

pub the_target-HasPlaces :
    (tid : ℕ) (s : Admin) (t : ScsiTarget)
    → IsConsistent s
    → the_target tid s ≡ some t
    → HasPlaces t
unfolding the_target
the_target-HasPlaces tid s t v h = elim (Bool-cases (tid == global_tid)) [
  | inl e ↦ subst HasPlaces (some_injective (rw e at h)) v.global
  | inr e ↦ target_lookup-All tid s.target_list t v.targets (rw e at h)
]

write_target-IsConsistent :
    (tid : ℕ) (t : ScsiTarget) (s : Admin)
    → HasPlaces t
    → IsConsistent s
    → IsConsistent (write_target tid t s)
unfolding write_target
write_target-IsConsistent tid t s h v = elim (Bool-cases (tid == global_tid)) [
  | inl e ↦ rw (e, write_target) (record { accounts = v.accounts; targets = v.targets; global = h })
  | inr e ↦
      rw (e, write_target)
        (record {
          accounts = v.accounts;
          targets = put_target-All tid t s.target_list h v.targets;
          global = v.global;
        })
]

account_ctl-IsConsistent :
    (memory : Bool) (tid : ℕ) (type : AccountType) (user : List ℕ) (bind : Bool) (s : Admin)
    → IsConsistent s
    → IsConsistent (account_ctl memory tid type user bind s).1
unfolding account_ctl
account_ctl-IsConsistent memory tid type user bind s v = elim (Option-cases (the_target tid s)) [
  | inl e ↦ rw (e, account_ctl) v
  | inr (t, e) ↦ elim (Option-cases (account_lookup_user user s.account_list)) [
    | inl f ↦ rw (e, f, account_ctl) v
    | inr (ac, f) ↦
        rw (e, f, account_ctl)
          (write_target-IsConsistent tid (ctl_target memory type bind ac.aid t).1 s
            (ctl_target-HasPlaces memory type bind ac.aid t
              (account_lookup_user-nonzero user s.account_list ac v.accounts f)
              (the_target-HasPlaces tid s t v e))
            v)
  ]
]

account_add-IsConsistent :
    (memory : Bool) (user password : List ℕ) (s : Admin)
    → IsConsistent s
    → IsConsistent (account_add memory user password s).1
unfolding account_add
account_add-IsConsistent memory user password s v =
    elim (Option-cases (account_lookup_user user s.account_list)) [
      | inr (ac, e) ↦ rw (e, account_add) v
      | inl e ↦ elim (Bool-cases (free_aid int_max 1 s.account_list == int_max)) [
        | inl full ↦ rw (e, full, account_add) v
        | inr some_free ↦ elim (Bool-cases memory) [
          | inr m ↦ rw (e, some_free, m, account_add) v
          | inl m ↦
              rw (e, some_free, m, account_add)
                (record {
                  accounts = (positive found.0, is_free found.1 some_free, e, v.accounts);
                  targets = v.targets;
                  global = v.global;
                })
        ]
      ]
    ]
  where
    found :
        (1 ≤ free_aid int_max 1 s.account_list)
        × ((account_lookup_id (free_aid int_max 1 s.account_list) s.account_list ≡ none)
            ⊎ (free_aid int_max 1 s.account_list ≡ int_max))
    found = free_aid-free int_max 1 s.account_list (omega arith) (omega arith)

    positive : {n : ℕ} → 1 ≤ n → n ≢ 0
    positive h e = omega (arith, h, e)

    is_free :
        {n : ℕ}
        → (account_lookup_id n s.account_list ≡ none) ⊎ (n ≡ int_max)
        → (n == int_max) ≡ false
        → account_lookup_id n s.account_list ≡ none
    is_free (inl e) h = e
    is_free (inr e) h = absurd (ground (arith, e, h))

unbind_both-IsConsistent :
    (tid : ℕ) (user : List ℕ) (s : Admin) → IsConsistent s → IsConsistent (unbind_both tid user s)
unfolding unbind_both
unbind_both-IsConsistent tid user s v =
    account_ctl-IsConsistent true tid account_outgoing user false _
      (account_ctl-IsConsistent true tid account_incoming user false s v)

unbind_all-IsConsistent :
    (ts : List ScsiTarget) (user : List ℕ) (s : Admin)
    → IsConsistent s
    → IsConsistent (unbind_all ts user s)
unfolding unbind_all
unbind_all-IsConsistent [] user s v = v
unbind_all-IsConsistent (t ∷ ts) user s v =
    unbind_all-IsConsistent ts user (unbind_both t.tid user s)
      (unbind_both-IsConsistent t.tid user s v)

account_del-IsConsistent :
    (user : List ℕ) (s : Admin) → IsConsistent s → IsConsistent (account_del user s).1
unfolding account_del
account_del-IsConsistent user s v = elim (Option-cases (account_lookup_user user s.account_list)) [
  | inl e ↦ rw (e, account_del) v
  | inr (ac, e) ↦
      let k =
        unbind_both-IsConsistent global_tid user _
          (unbind_all-IsConsistent s.target_list user s v) in
      rw (e, account_del)
        (record {
          accounts = drop_account-AreApart user _ k.accounts;
          targets = k.targets;
          global = k.global;
        })
]

-- What an administrator does with the accounts.
pub data AccountRequest : Type 0 where
  add_user : Bool → List ℕ → List ℕ → AccountRequest
  del_user : List ℕ → AccountRequest
  ctl_user : Bool → ℕ → AccountType → List ℕ → Bool → AccountRequest

abbrev pub perform_request : AccountRequest → Admin → Admin
perform_request (add_user memory user password) s = (account_add memory user password s).1
perform_request (del_user user) s = (account_del user s).1
perform_request (ctl_user memory tid type user bind) s = (account_ctl memory tid type user bind s).1

abbrev pub perform_all : List AccountRequest → Admin → Admin
perform_all [] s = s
perform_all (r ∷ rs) s = perform_all rs (perform_request r s)

-- Whatever accounts are added, deleted, bound to targets and unbound, in whatever order and where
-- memory runs out at any point: every target has as many places as it says, as many of them are
-- taken as it counts, no account takes two, and the accounts have numbers and names of their own.
pub perform_all-IsConsistent :
    (rs : List AccountRequest) (s : Admin) → IsConsistent s → IsConsistent (perform_all rs s)
perform_all-IsConsistent [] s v = v
perform_all-IsConsistent (add_user memory user password ∷ rs) s v =
    perform_all-IsConsistent rs _ (account_add-IsConsistent memory user password s v)
perform_all-IsConsistent (del_user user ∷ rs) s v =
    perform_all-IsConsistent rs _ (account_del-IsConsistent user s v)
perform_all-IsConsistent (ctl_user memory tid type user bind ∷ rs) s v =
    perform_all-IsConsistent rs _ (account_ctl-IsConsistent memory tid type user bind s v)
