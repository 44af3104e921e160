-- ===== src/Target/Acl.antt =====
-- The access lists of a target, usr/target.c: addresses, and names of initiators.
use tgt.Base.{
  ℕ, ◌+◌, Bool, true, false, Option, none, some, List, [], ◌∷◌, ◌++◌, ◌==◌, if◌then◌else◌,
  same_text,
}
use tgt.Target.Lookup.{
  ScsiTarget, AdmErr, tgtadm_success, tgtadm_no_target, tgtadm_acl_exist, tgtadm_acl_noexist,
  tgtadm_nomem, target_lookup, put_target,
}

unfoldable pub has_entry : List ℕ → List (List ℕ) → Bool
has_entry s [] = false
has_entry s (e ∷ es) = if same_text s e then true else has_entry s es

-- `memory` is whether `zalloc` and `strdup` give memory.
unfoldable pub add_entry : Bool → List ℕ → List (List ℕ) → AdmErr × List (List ℕ)
unfolding has_entry
add_entry memory s es =
    if has_entry s es
    then (tgtadm_acl_exist, es)
    else if memory
    then (tgtadm_success, es ++ (s ∷ []))
    else (tgtadm_nomem, es)

abbrev pub keep_entry : List ℕ → AdmErr × List (List ℕ) → AdmErr × List (List ℕ)
keep_entry e (err, es) = (err, e ∷ es)

unfoldable pub del_entry : List ℕ → List (List ℕ) → AdmErr × List (List ℕ)
del_entry s [] = (tgtadm_acl_noexist, [])
del_entry s (e ∷ es) =
    let rest = del_entry s es in if same_text s e then (tgtadm_success, es) else keep_entry e rest

-- The loop over the entries, from number `i` on.
unfoldable pub entry_from : ℕ → ℕ → List (List ℕ) → Option (List ℕ)
entry_from idx i [] = none
entry_from idx i (e ∷ es) = if idx == i then some e else entry_from idx (i + 1) es

abbrev pub with_acl :
    ℕ → ScsiTarget → AdmErr × List (List ℕ) → List ScsiTarget → AdmErr × List ScsiTarget
with_acl tid t (err, es) ts = (err, put_target tid (record t { acl_list = es }) ts)

abbrev pub with_iqn_acl :
    ℕ → ScsiTarget → AdmErr × List (List ℕ) → List ScsiTarget → AdmErr × List ScsiTarget
with_iqn_acl tid t (err, es) ts = (err, put_target tid (record t { iqn_acl_list = es }) ts)

unfoldable pub acl_add : Bool → ℕ → List ℕ → List ScsiTarget → AdmErr × List ScsiTarget
unfolding target_lookup put_target add_entry
acl_add memory tid address ts = elim (target_lookup tid ts) [
  | none ↦ (tgtadm_no_target, ts)
  | some t ↦ with_acl tid t (add_entry memory address t.acl_list) ts
]

unfoldable pub acl_del : ℕ → List ℕ → List ScsiTarget → AdmErr × List ScsiTarget
unfolding target_lookup put_target del_entry
acl_del tid address ts = elim (target_lookup tid ts) [
  | none ↦ (tgtadm_no_target, ts)
  | some t ↦ with_acl tid t (del_entry address t.acl_list) ts
]

unfoldable pub acl_get : ℕ → ℕ → List ScsiTarget → Option (List ℕ)
unfolding target_lookup entry_from
acl_get tid idx ts = elim (target_lookup tid ts) [
  | none ↦ none
  | some t ↦ entry_from idx 0 t.acl_list
]

unfoldable pub iqn_acl_add : Bool → ℕ → List ℕ → List ScsiTarget → AdmErr × List ScsiTarget
unfolding target_lookup put_target add_entry
iqn_acl_add memory tid name ts = elim (target_lookup tid ts) [
  | none ↦ (tgtadm_no_target, ts)
  | some t ↦ with_iqn_acl tid t (add_entry memory name t.iqn_acl_list) ts
]

unfoldable pub iqn_acl_del : ℕ → List ℕ → List ScsiTarget → AdmErr × List ScsiTarget
unfolding target_lookup put_target del_entry
iqn_acl_del tid name ts = elim (target_lookup tid ts) [
  | none ↦ (tgtadm_no_target, ts)
  | some t ↦ with_iqn_acl tid t (del_entry name t.iqn_acl_list) ts
]

unfoldable pub iqn_acl_get : ℕ → ℕ → List ScsiTarget → Option (List ℕ)
unfolding target_lookup entry_from
iqn_acl_get tid idx ts = elim (target_lookup tid ts) [
  | none ↦ none
  | some t ↦ entry_from idx 0 t.iqn_acl_list
]
