-- ===== src/Spc/Access.antt =====
-- Which commands a persistent reservation lets through: `spc_access_check` of usr/spc.c. `ops` is
-- the device type's table: the `pr_conflict_bits` of each operation code.
use tgt.Base.{ℕ, Bool, true, false, Option, none, some, byte, bit, ◌==◌, ◌||◌, if◌then◌else◌}
use tgt.Scsi.Codes
use tgt.Scsi.Lu.{Registration, Env}
use tgt.Spc.Registration.{is_holder, deref_holder, registration_of}

-- PR_EA_FN, PR_WE_FN, PR_RR_FR, PR_EA_FA and PR_WE_FA, by the number of the bit.
abbrev pub pr_ea_fn : ℕ
pr_ea_fn = 0

abbrev pub pr_we_fn : ℕ
pr_we_fn = 1

abbrev pub pr_rr_fr : ℕ
pr_rr_fr = 2

abbrev pub pr_ea_fa : ℕ
pr_ea_fa = 3

abbrev pub pr_we_fa : ℕ
pr_we_fa = 4

-- The conflict for a nexus that does not hold the reservation; `registered` is `reg != NULL`.
unfoldable pub conflict_of : ℕ → ℕ → Bool → Bool
conflict_of bits pr_type registered =
    if pr_type == Codes.pr_type_exclusive_access
    then bit bits pr_ea_fa
    else if pr_type == Codes.pr_type_write_exclusive
    then bit bits pr_we_fa
    else if registered
    then bit bits pr_rr_fr
    else if (pr_type == Codes.pr_type_write_exclusive_regonly)
        || (pr_type == Codes.pr_type_write_exclusive_allreg)
    then bit bits pr_we_fn
    else bit bits pr_ea_fn

unfoldable pub holds : Option Registration → Registration → Bool
holds none holder = false
holds (some reg) holder = is_holder holder reg

abbrev pub is_there : Option Registration → Bool
is_there none = false
is_there (some reg) = true

-- `true` is a conflict, the code's result other than 0.
unfoldable pub spc_access_check : (ℕ → ℕ) → Env → Option Bool
unfolding conflict_of holds
spc_access_check ops env = elim (deref_holder env.dev) [
  | none ↦ none
  | some holder ↦ elim holder [
    | none ↦ some false
    | some h ↦
        let reg = registration_of env in
        some (
          if holds reg h
          then false
          else conflict_of (ops (byte env.cmd.scb 0)) h.pr_type (is_there reg))
  ]
]
