-- ===== src/Target/AccountHidden.antt =====
-- What the look-up of an account in usr/target.c misses: it passes as many places as are taken, and
-- not as many as there are.
use tgt.Base.{
  ℕ, ◌≡◌, refl, arith, Bool, true, false, none, some, List, [], ◌∷◌, ◌==◌, replicate, Bool-cases,
  inl, inr,
}
use tgt.Target.Lookup.{
  global_tid, tgtadm_success, ScsiTarget, target_lookup, target_lookup-put_target,
  target_lookup-tid,
}
use tgt.Target.Account.{
  Account, Admin, account_incoming, account_lookup_id, account_lookup_user, the_target,
  write_target, find_incoming, account_lookup, replace_aid, inaccount_unbind, ctl_target,
  account_ctl, account_available,
}
use tgt.Target.AccountList.{AreApart}

pub the_target-write_target :
    (tid : ℕ) (t u : ScsiTarget) (s : Admin)
    → the_target tid s ≡ some t
    → (u.tid ≡ t.tid)
    → the_target tid (write_target tid u s) ≡ some u
unfolding the_target write_target
the_target-write_target tid t u s h same = elim (Bool-cases (tid == global_tid)) [
  | inl e ↦ rw (e, write_target) refl
  | inr e ↦
      let known : target_lookup tid s.target_list ≡ some t = rw e at h in
      rw (e, write_target)
        (target_lookup-put_target tid s.target_list t u known
          (rw same (target_lookup-tid tid s.target_list t known)))
]

pub write_target-account_list :
    (tid : ℕ) (u : ScsiTarget) (s : Admin) → (write_target tid u s).account_list ≡ s.account_list
unfolding write_target
write_target-account_list tid u s = ground arith

zero-unknown : (acs : List Account) → AreApart acs → account_lookup_id 0 acs ≡ none
unfolding account_lookup_id
zero-unknown [] v = refl
zero-unknown (ac ∷ acs) v =
    let other : (ac.aid == 0) ≡ false = ground (arith, v.0) in rw other (zero-unknown acs v.3)

abbrev with_places : ℕ → List ℕ → ScsiTarget → ScsiTarget
with_places n aids t = record t { in_aids = aids; nr_inaccount = n }

unbind_first :
    (aid other n : ℕ) (t : ScsiTarget)
    → t.in_aids ≡ aid ∷ other ∷ replicate n 0
    → t.nr_inaccount ≡ 2
    → inaccount_unbind aid t ≡ (tgtadm_success, with_places 1 (0 ∷ other ∷ replicate n 0) t)
unfolding inaccount_unbind replace_aid
unbind_first aid other n t places two =
    let same : (aid == aid) ≡ true = ground arith in
    simp (places, two, same, inaccount_unbind, replace_aid)

module _ (tid : ℕ) (u : ScsiTarget) (s : Admin) (found : the_target tid s ≡ some u) where
  available_nr : account_available tid account_incoming s ≡ u.nr_inaccount
  unfolding account_available
  available_nr = rw (found, account_available) refl

  lookup_nothing :
      (name : List ℕ) (ulen plen other : ℕ) (more : List ℕ)
      → AreApart s.account_list
      → u.in_aids ≡ 0 ∷ other ∷ more
      → u.nr_inaccount ≡ 1
      → account_lookup tid account_incoming name ulen plen s ≡ none
  unfolding account_lookup find_incoming
  lookup_nothing name ulen plen other more v places one =
      simp (found, places, one, zero-unknown s.account_list v, account_lookup, find_incoming)

-- A target accepts two accounts, in its first two places, and the first of them is unbound: then no
-- user at all is found among the accounts that the target accepts, while it still counts one of
-- them, and so asks every initiator for an account.
pub unbound-hides :
    (memory : Bool) (tid n plen : ℕ) (user name : List ℕ) (a b : Account) (t : ScsiTarget)
    (s : Admin)
    → AreApart s.account_list
    → the_target tid s ≡ some t
    → t.in_aids ≡ a.aid ∷ b.aid ∷ replicate n 0
    → t.nr_inaccount ≡ 2
    → account_lookup_user user s.account_list ≡ some a
    → (account_lookup tid account_incoming name 0 plen
          (account_ctl memory tid account_incoming user false s).1
        ≡ none)
      × (account_available tid account_incoming
            (account_ctl memory tid account_incoming user false s).1
          ≡ 1)
unfolding account_ctl ctl_target
unbound-hides memory tid n plen user name a b t s v found places two known =
    let u = with_places 1 (0 ∷ b.aid ∷ replicate n 0) t in
    let after : (account_ctl memory tid account_incoming user false s).1 ≡ write_target tid u s =
      simp (found, known, unbind_first a.aid b.aid n t places two, account_ctl, ctl_target) in
    let found' = the_target-write_target tid t u s found refl in
    rw after (
      lookup_nothing tid u (write_target tid u s) found' name 0 plen b.aid (replicate n 0)
          (rw (write_target-account_list tid u s) v) refl refl,
      available_nr tid u (write_target tid u s) found',
    )
