-- ===== src/Target/AccountList.antt =====
-- The list of accounts, usr/target.c.
use tgt.Base.{
  ℕ, zero, suc, ◌+◌, ◌≡◌, ◌≢◌, ◌≤◌, ◌⊎◌, refl, subst, inl, inr, none, some, some_injective, List,
  [], ◌∷◌, ◌==◌, arith, ltb, same_text, Bool-cases, Option-cases,
}
use tgt.Target.Account.{
  Account, int_max, account_lookup_id, account_lookup_user, free_aid, drop_account,
}

-- The accounts have numbers other than 0 and names of their own.
abbrev pub AreApart : List Account → Type 0
AreApart [] = Unit
AreApart (ac ∷ acs) =
    (ac.aid ≢ 0)
    × (account_lookup_id ac.aid acs ≡ none)
    × (account_lookup_user ac.user acs ≡ none)
    × AreApart acs

pub account_lookup_user-nonzero :
    (user : List ℕ) (acs : List Account) (ac : Account)
    → AreApart acs
    → account_lookup_user user acs ≡ some ac
    → ac.aid ≢ 0
unfolding account_lookup_user
account_lookup_user-nonzero user [] ac v h = absurd (cc h)
account_lookup_user-nonzero user (a ∷ acs) ac v h = elim (Bool-cases (same_text a.user user)) [
  | inl e ↦ subst (λ b. b.aid ≢ 0) (some_injective (rw e at h)) v.0
  | inr e ↦ account_lookup_user-nonzero user acs ac v.3 (rw e at h)
]

-- The loop ends at a number that is free, or at INT_MAX.
pub free_aid-free :
    (fuel aid : ℕ) (acs : List Account)
    → aid ≤ int_max
    → int_max ≤ aid + fuel
    → (aid ≤ free_aid fuel aid acs)
      × ((account_lookup_id (free_aid fuel aid acs) acs ≡ none) ⊎ (free_aid fuel aid acs ≡ int_max))
unfolding free_aid
free_aid-free zero aid acs below above = (omega arith, inr (omega (arith, below, above)))
free_aid-free (suc fuel) aid acs below above = elim (Option-cases (account_lookup_id aid acs)) [
  | inl e ↦ rw (e, free_aid) (omega arith, inl e)
  | inr (ac, e) ↦ elim (Bool-cases (ltb aid int_max)) [
    | inl f ↦
        let rest = free_aid-free fuel (aid + 1) acs (ground (arith, f)) (omega (arith, above)) in
        rw (e, f, free_aid) (omega (arith, rest.0), rest.1)
    | inr f ↦ rw (e, f, free_aid) (omega arith, inr (ground (arith, f, below)))
  ]
]

drop_account-lookup_id :
    (user : List ℕ) (x : ℕ) (acs : List Account)
    → account_lookup_id x acs ≡ none
    → account_lookup_id x (drop_account user acs) ≡ none
unfolding drop_account account_lookup_id
drop_account-lookup_id user x [] h = refl
drop_account-lookup_id user x (ac ∷ acs) h = elim (Bool-cases (ac.aid == x)) [
  | inl e ↦ absurd (cc (rw e at h))
  | inr e ↦ elim (Bool-cases (same_text ac.user user)) [
    | inl f ↦ rw (f, drop_account) (rw e at h)
    | inr f ↦ rw (f, drop_account) (rw e (drop_account-lookup_id user x acs (rw e at h)))
  ]
]

drop_account-lookup_user :
    (user x : List ℕ) (acs : List Account)
    → account_lookup_user x acs ≡ none
    → account_lookup_user x (drop_account user acs) ≡ none
unfolding drop_account account_lookup_user
drop_account-lookup_user user x [] h = refl
drop_account-lookup_user user x (ac ∷ acs) h = elim (Bool-cases (same_text ac.user x)) [
  | inl e ↦ absurd (cc (rw e at h))
  | inr e ↦ elim (Bool-cases (same_text ac.user user)) [
    | inl f ↦ rw (f, drop_account) (rw e at h)
    | inr f ↦ rw (f, drop_account) (rw e (drop_account-lookup_user user x acs (rw e at h)))
  ]
]

pub drop_account-AreApart :
    (user : List ℕ) (acs : List Account) → AreApart acs → AreApart (drop_account user acs)
unfolding drop_account
drop_account-AreApart user [] v = tt
drop_account-AreApart user (ac ∷ acs) v = elim (Bool-cases (same_text ac.user user)) [
  | inl f ↦ rw (f, drop_account) v.3
  | inr f ↦
      rw (f, drop_account)
        (
          v.0,
          drop_account-lookup_id user ac.aid acs v.1,
          drop_account-lookup_user user ac.user acs v.2,
          drop_account-AreApart user acs v.3,
        )
]
