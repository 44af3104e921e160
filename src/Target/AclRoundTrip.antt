-- ===== src/Target/AclRoundTrip.antt =====
-- An entry of an access list that is added and deleted again, usr/target.c.
use tgt.Base.{
  ◌≢◌, ℕ, ◌≡◌, refl, ap, inl, inr, true, false, none, some, List, [], ◌∷◌, ◌++◌, ◌==◌, arith,
  same_text, Bool-cases, Option-cases,
}
use tgt.Target.Lookup.{
  ScsiTarget, tgtadm_success, target_lookup, target_lookup-tid, target_lookup-put_target,
  put_target-back,
}
use tgt.Target.Acl.{has_entry, add_entry, del_entry, iqn_acl_add, iqn_acl_del}

same_text_refl : (s : List ℕ) → same_text s s ≡ true
same_text_refl [] = refl
same_text_refl (c ∷ s) = let same : (c == c) ≡ true = ground arith in rw same (same_text_refl s)

del_entry-last :
    (s : List ℕ) (es : List (List ℕ))
    → has_entry s es ≡ false
    → del_entry s (es ++ (s ∷ [])) ≡ (tgtadm_success, es)
unfolding del_entry has_entry
del_entry-last s [] h = rw (same_text_refl s) refl
del_entry-last s (e ∷ es) h = elim (Bool-cases (same_text s e)) [
  | inl same ↦ absurd (cc (rw same at h))
  | inr other ↦ rw other (rw (del_entry-last s es (rw other at h)) refl)
]

added :
    (tid : ℕ) (name : List ℕ) (ts : List ScsiTarget) (t : ScsiTarget)
    → target_lookup tid ts ≡ some t
    → has_entry name t.iqn_acl_list ≡ false
    → iqn_acl_del tid name (iqn_acl_add true tid name ts).1 ≡ (tgtadm_success, ts)
unfolding iqn_acl_add iqn_acl_del add_entry
added tid name ts t found fresh =
    let u : ScsiTarget = record t { iqn_acl_list = t.iqn_acl_list ++ (name ∷ []) } in
    let own = target_lookup-tid tid ts t found in
    rw (found, fresh, iqn_acl_add)
      (rw
        (
          target_lookup-put_target tid ts t u found own,
          del_entry-last name t.iqn_acl_list fresh,
          iqn_acl_del,
        )
        (ap (λ us. (tgtadm_success, us)) (put_target-back tid ts t u found own)))

module _ (tid : ℕ) (name : List ℕ) (ts : List ScsiTarget) where
  no_target : target_lookup tid ts ≡ none → (iqn_acl_add true tid name ts).0 ≢ tgtadm_success
  unfolding iqn_acl_add
  no_target e h = ground (arith, e, h)

  twice :
      (t : ScsiTarget)
      → target_lookup tid ts ≡ some t
      → has_entry name t.iqn_acl_list ≡ true
      → (iqn_acl_add true tid name ts).0 ≢ tgtadm_success
  unfolding iqn_acl_add add_entry
  twice t e listed h = ground (arith, e, listed, h)

-- A name that was added to a target's list of initiators, and deleted again, leaves the targets as
-- they were.
pub iqn_acl_del-iqn_acl_add :
    (tid : ℕ) (name : List ℕ) (ts : List ScsiTarget)
    → (iqn_acl_add true tid name ts).0 ≡ tgtadm_success
    → iqn_acl_del tid name (iqn_acl_add true tid name ts).1 ≡ (tgtadm_success, ts)
iqn_acl_del-iqn_acl_add tid name ts h = elim (Option-cases (target_lookup tid ts)) [
  | inl e ↦ absurd (no_target tid name ts e h)
  | inr (t, e) ↦ elim (Bool-cases (has_entry name t.iqn_acl_list)) [
    | inl listed ↦ absurd (twice tid name ts t e listed h)
    | inr fresh ↦ added tid name ts t e fresh
  ]
]
