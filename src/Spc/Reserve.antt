-- ===== src/Spc/Reserve.antt =====
-- RESERVE and RELEASE of a persistent reservation: `spc_pr_reserve` and `spc_pr_release` of
-- usr/spc.c.
use tgt.Base.{ℕ, Bool, not, ◌||◌, Option, none, some, List, [], ◌∷◌, ◌==◌, if◌then◌else◌, is_one_of}
use tgt.Scsi.Codes
use tgt.Scsi.Cmd.{ScsiCmd}
use tgt.Scsi.Lu.{Registration, Env, Outcome, sense, modify}
use tgt.Spc.Registration.{
  cmd_res_key, is_holder, is_pr_type, cdb_scope, cdb_type, deref_holder, registration_of,
  check_pr_out_basic_parameter, announce_other,
}

-- Writes the scope and the type of a registration.
abbrev pub mark : Registration → ℕ → ℕ → List Registration → List Registration
mark reg scope type = modify reg.addr (λ r. record r { pr_scope = scope; pr_type = type })

-- From the test on `pr_holder` on.
unfoldable pub reserve_as : Env → Registration → Option Registration → Outcome
reserve_as env reg (some holder) =
    if not (is_holder holder reg)
    then some (Codes.sam_stat_reservation_conflict, env)
    else if not (holder.pr_type == cdb_type env.cmd) || not (holder.pr_scope == cdb_scope env.cmd)
    then some (Codes.sam_stat_reservation_conflict, env)
    else some (Codes.sam_stat_good, env)
reserve_as env reg none = some (
  Codes.sam_stat_good,
  record env {
    dev = record env.dev {
      registration_list = mark reg (cdb_scope env.cmd) (cdb_type env.cmd) env.dev.registration_list;
      pr_holder = some reg.addr;
    };
  },
)

-- The jumps to `sense`, in the code's order.
abbrev pub reserve_is_malformed : ScsiCmd → Bool
reserve_is_malformed cmd =
    check_pr_out_basic_parameter cmd
    || not (is_pr_type (cdb_type cmd))
    || not (cdb_scope cmd == Codes.pr_lu_scope)

unfoldable pub spc_pr_reserve : Env → Outcome
unfolding reserve_as
spc_pr_reserve env =
    if check_pr_out_basic_parameter env.cmd
      || not (is_pr_type (cdb_type env.cmd))
      || not (cdb_scope env.cmd == Codes.pr_lu_scope)
    then sense Codes.illegal_request Codes.asc_invalid_field_in_cdb env
    else elim (registration_of env) [
      | none ↦ some (Codes.sam_stat_reservation_conflict, env)
      | some reg ↦ elim (deref_holder env.dev) [
        | none ↦ none
        | some holder ↦ reserve_as env reg holder
      ]
    ]

-- The types whose release is not announced.
abbrev pub is_silent : ℕ → Bool
is_silent t = is_one_of t (
    Codes.pr_type_write_exclusive_regonly ∷ Codes.pr_type_exclusive_access_regonly
    ∷ Codes.pr_type_write_exclusive_allreg ∷ Codes.pr_type_exclusive_access_allreg ∷ [])

unfoldable pub released : Env → Registration → Env
released env reg = record env {
  dev = record env.dev {
    registration_list = mark reg 0 0 env.dev.registration_list;
    pr_holder = none;
  };
  it_nexus_list =
      if is_silent (cdb_type env.cmd)
      then env.it_nexus_list
      else announce_other env.dev.sense_format env.dev.lun Codes.asc_reservations_released reg.addr
          env.dev.registration_list env.it_nexus_list;
}

unfoldable pub release_as : Env → Registration → Option Registration → Outcome
unfolding released
release_as env reg none = some (Codes.sam_stat_good, env)
release_as env reg (some holder) =
    if not (is_holder holder reg)
    then some (Codes.sam_stat_good, env)
    else if not (cmd_res_key env.cmd == reg.key)
    then some (Codes.sam_stat_reservation_conflict, env)
    else if not (holder.pr_scope == cdb_scope env.cmd) || not (holder.pr_type == cdb_type env.cmd)
    then sense Codes.illegal_request Codes.asc_invalid_release_of_persistent_reservation env
    else some (Codes.sam_stat_good, released env reg)

unfoldable pub spc_pr_release : Env → Outcome
unfolding release_as
spc_pr_release env =
    if check_pr_out_basic_parameter env.cmd
    then sense Codes.illegal_request Codes.asc_invalid_field_in_cdb env
    else elim (registration_of env) [
      | none ↦ some (Codes.sam_stat_reservation_conflict, env)
      | some reg ↦ elim (deref_holder env.dev) [
        | none ↦ none
        | some holder ↦ release_as env reg holder
      ]
    ]
