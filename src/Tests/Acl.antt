-- ===== src/Tests/Acl.antt =====
-- Access lists of two targets.
use tgt.Base.{ℕ, ◌≡◌, refl, true, List, [], ◌∷◌, text}
use tgt.Target.Lookup.{ScsiTarget, tgtadm_acl_exist, target_lookup}
use tgt.Target.Acl.{has_entry, add_entry, iqn_acl_add}
use tgt.Iscsi.Acl.{iqn_acl, is_barred, names_of, iqn_acl_lem}

abbrev bare_target : ℕ → ScsiTarget
bare_target n = record {
  tid = n;
  acl_list = [];
  iqn_acl_list = [];
  in_aids = 0 ∷ 0 ∷ [];
  nr_inaccount = 0;
  max_inaccount = 2;
  out_aid = 0;
}

abbrev acl_targets : List ScsiTarget
acl_targets =
    bare_target 1
    ∷ record (bare_target 2) { acl_list = text "ALL" ∷ []; iqn_acl_list = text "a" ∷ text "b" ∷ [] }
    ∷ []

iqn_acl_lem_example :
    iqn_acl acl_targets 2 (text "c") ≡ is_barred (text "c") (names_of 2 acl_targets)
iqn_acl_lem_example = iqn_acl_lem acl_targets 2 (text "c")

barred : is_barred (text "c") (names_of 2 acl_targets) ≡ true
unfolding has_entry target_lookup
barred = refl

listed_twice : (iqn_acl_add true 2 (text "a") acl_targets).0 ≡ tgtadm_acl_exist
unfolding iqn_acl_add add_entry has_entry target_lookup
listed_twice = refl
