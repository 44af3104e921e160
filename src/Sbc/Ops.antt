-- ===== src/Sbc/Ops.antt =====
-- The `pr_conflict_bits` of the operation table of usr/sbc.c (`sbc_template.ops`): which commands
-- conflict with a persistent reservation that another nexus holds.
use tgt.Base.{ℕ, ◌+◌, ◌^◌, List, [], ◌∷◌, is_one_of, if◌then◌else◌, ◌==◌}
use tgt.Scsi.Codes
use tgt.Spc.Access.{pr_ea_fn, pr_we_fn, pr_ea_fa, pr_we_fa}

-- The entries with PR_WE_FA|PR_EA_FA|PR_WE_FN|PR_EA_FN.
abbrev pub barred_by_all : List ℕ
barred_by_all =
    Codes.write_6 ∷ Codes.write_10 ∷ Codes.write_16 ∷ Codes.write_12 ∷ Codes.mode_select
    ∷ Codes.mode_select_10 ∷ Codes.mode_sense ∷ Codes.mode_sense_10 ∷ Codes.synchronize_cache
    ∷ Codes.synchronize_cache_16 ∷ []

-- The entries with PR_EA_FA|PR_EA_FN.
abbrev pub barred_by_exclusive_access : List ℕ
barred_by_exclusive_access =
    Codes.read_6 ∷ Codes.read_10 ∷ Codes.read_16 ∷ Codes.read_12 ∷ Codes.write_verify
    ∷ Codes.verify_10 ∷ Codes.pre_fetch_10 ∷ Codes.orwrite_16 ∷ Codes.write_verify_16
    ∷ Codes.verify_16 ∷ Codes.pre_fetch_16 ∷ Codes.write_verify_12 ∷ Codes.verify_12 ∷ []

unfoldable pub sbc_pr_conflict_bits : ℕ → ℕ
sbc_pr_conflict_bits op =
    if is_one_of op barred_by_all
    then 2 ^ pr_we_fa + 2 ^ pr_ea_fa + 2 ^ pr_we_fn + 2 ^ pr_ea_fn
    else if is_one_of op barred_by_exclusive_access
    then 2 ^ pr_ea_fa + 2 ^ pr_ea_fn
    else if op == Codes.start_stop
    then 2 ^ 5
    else 0
