-- ===== src/Target/Lookup.antt =====
-- The targets and their look-up, usr/target.c.
use tgt.Base.{
  ℕ, ◌-◌, ◌^◌, ◌≡◌, refl, sym, ap, subst, some_injective, inl, inr, true, Option, none, some, List,
  [], ◌∷◌, ◌==◌, if◌then◌else◌, Bool-cases,
}

-- GLOBAL_TID, ~0U as an int's bits
abbrev pub global_tid : ℕ
global_tid = 2 ^ 32 - 1

-- TGTADM_*
pub data AdmErr : Type 0 where
  tgtadm_success tgtadm_unknown_err tgtadm_nomem tgtadm_no_target tgtadm_acl_exist : AdmErr
  tgtadm_acl_noexist tgtadm_user_exist tgtadm_no_user tgtadm_too_many_user : AdmErr
  tgtadm_outaccount_exist : AdmErr

-- `struct target`, as far as its access lists and its accounts go. An entry of a list is its string.
-- An account is its number, and 0 in `in_aids` is a free place.
pub record ScsiTarget : Type 0 where
  pub tid : ℕ
  pub acl_list : List (List ℕ)
  pub iqn_acl_list : List (List ℕ)
  pub in_aids : List ℕ
  pub nr_inaccount : ℕ
  pub max_inaccount : ℕ
  pub out_aid : ℕ

unfoldable pub target_lookup : ℕ → List ScsiTarget → Option ScsiTarget
target_lookup tid [] = none
target_lookup tid (t ∷ ts) = if t.tid == tid then some t else target_lookup tid ts

-- The target with the number `tid` is written.
unfoldable pub put_target : ℕ → ScsiTarget → List ScsiTarget → List ScsiTarget
put_target tid t [] = []
put_target tid t (u ∷ us) = if u.tid == tid then t ∷ us else u ∷ put_target tid t us

pub target_lookup-tid :
    (tid : ℕ) (ts : List ScsiTarget) (t : ScsiTarget)
    → target_lookup tid ts ≡ some t
    → (t.tid == tid) ≡ true
unfolding target_lookup
target_lookup-tid tid [] t h = absurd (cc h)
target_lookup-tid tid (u ∷ ts) t h = elim (Bool-cases (u.tid == tid)) [
  | inl e ↦
      let same : u ≡ t = some_injective (rw e at h) in subst (λ v. (v.tid == tid) ≡ true) same e
  | inr e ↦ target_lookup-tid tid ts t (rw e at h)
]

pub target_lookup-put_target :
    (tid : ℕ) (ts : List ScsiTarget) (t u : ScsiTarget)
    → target_lookup tid ts ≡ some t
    → (u.tid == tid) ≡ true
    → target_lookup tid (put_target tid u ts) ≡ some u
unfolding target_lookup put_target
target_lookup-put_target tid [] t u h k = absurd (cc h)
target_lookup-put_target tid (v ∷ ts) t u h k = elim (Bool-cases (v.tid == tid)) [
  | inl e ↦ rw (e, put_target) (rw (k, target_lookup) refl)
  | inr e ↦
      rw (e, put_target) (rw (e, target_lookup) (target_lookup-put_target tid ts t u (rw e at h) k))
]

pub put_target-back :
    (tid : ℕ) (ts : List ScsiTarget) (t u : ScsiTarget)
    → target_lookup tid ts ≡ some t
    → (u.tid == tid) ≡ true
    → put_target tid t (put_target tid u ts) ≡ ts
unfolding target_lookup put_target
put_target-back tid [] t u h k = refl
put_target-back tid (v ∷ ts) t u h k = elim (Bool-cases (v.tid == tid)) [
  | inl e ↦
      let same : v ≡ t = some_injective (rw e at h) in
      rw (e, put_target) (rw (k, put_target) (ap (λ w. w ∷ ts) (sym same)))
  | inr e ↦
      rw (e, put_target)
        (rw (e, put_target) (ap (λ ws. v ∷ ws) (put_target-back tid ts t u (rw e at h) k)))
]
