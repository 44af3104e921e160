-- ===== src/Perform.antt =====
-- The checks between the queue and a command's handler: `scsi_cmd_perform` of usr/scsi.c, without
-- the statistics. The device type's handlers, its conflict bits and `is_bs_support_opcode` are
-- arguments.
pub mod Guards
use tgt.Base.{
  ℕ, Bool, true, false, not, ◌&&◌, ◌||◌, ◌≡◌, Option, none, some, List, [], ◌∷◌, map, byte, bit,
  ◌==◌, if◌then◌else◌,
}
use tgt.Scsi.Codes
use tgt.Scsi.Cmd.{ScsiCmd, sense_data_build}
use tgt.Scsi.Cdb.{cdb_control}
use tgt.Scsi.Lu.{Env, Outcome}
use tgt.Target.Nexus.{ItlInfo, ItNexus, ua_sense_del, ua_sense_clear}
use tgt.Spc.Access.{spc_access_check}

unfoldable pub it_nexus_lu_info_lookup : ℕ → List ItlInfo → Option ItlInfo
it_nexus_lu_info_lookup lun [] = none
it_nexus_lu_info_lookup lun (info ∷ rest) =
    if info.lun == lun then some info else it_nexus_lu_info_lookup lun rest

-- `cmd->itn_lu_info`: the entry of the command's nexus for the logical unit.
unfoldable pub itn_lu_info : ℕ → ℕ → List ItNexus → Option ItlInfo
unfolding it_nexus_lu_info_lookup
itn_lu_info id lun [] = none
itn_lu_info id lun (itn ∷ rest) =
    if itn.itn_id == id
    then it_nexus_lu_info_lookup lun itn.itn_itl_info_list
    else itn_lu_info id lun rest

-- Writes through `cmd->itn_lu_info`.
unfoldable pub put_info : ItlInfo → ℕ → List ItlInfo → List ItlInfo
put_info new lun [] = []
put_info new lun (info ∷ rest) =
    if info.lun == lun then new ∷ rest else info ∷ put_info new lun rest

unfoldable pub put_itn_lu_info : ItlInfo → ℕ → ℕ → List ItNexus → List ItNexus
unfolding put_info
put_itn_lu_info new id lun [] = []
put_itn_lu_info new id lun (itn ∷ rest) =
    if itn.itn_id == id
    then record itn { itn_itl_info_list = put_info new lun itn.itn_itl_info_list } ∷ rest
    else itn ∷ put_itn_lu_info new id lun rest

-- REPORT LUNS clears its condition at every logical unit of the nexus.
unfoldable pub clear_luns_changed : Env → Env
clear_luns_changed env = record env {
  it_nexus_list =
      map
        (λ itn.
          if itn.itn_id == env.cmd.it_nexus.itn_id
          then record itn {
            itn_itl_info_list =
                map (λ info. ua_sense_clear info Codes.asc_reported_luns_data_has_changed)
                  itn.itn_itl_info_list;
          }
          else itn)
        env.it_nexus_list;
}

unfoldable pub illegal : ℕ → ℕ → Env → Outcome
illegal status asc env = some (
  status,
  record env { cmd = sense_data_build env.dev.sense_format env.cmd Codes.illegal_request asc },
)

-- From `spc_access_check` on.
unfoldable pub dispatch : (ℕ → ℕ) → (ℕ → Bool) → (ℕ → Env → Outcome) → Env → Outcome
unfolding illegal
dispatch bits supported handlers env =
    let op = byte env.cmd.scb 0 in
    elim (spc_access_check bits env) [
      | none ↦ none
      | some conflict ↦
          if conflict
          then some (Codes.sam_stat_reservation_conflict, env)
          else if not (supported op)
          then illegal Codes.sam_stat_check_condition Codes.asc_invalid_op_code env
          else handlers op env
    ]

-- The report of a unit attention, where `ua_sense_del` finds one.
unfoldable pub attend : (ℕ → ℕ) → (ℕ → Bool) → (ℕ → Env → Outcome) → Env → Bool → Outcome
unfolding dispatch
attend bits supported handlers env del =
    let id = env.cmd.it_nexus.itn_id in
    elim (itn_lu_info id env.dev.lun env.it_nexus_list) [
      | none ↦ none
      | some info ↦
          let (pending, cmd, left) = ua_sense_del env.cmd info del in
          if pending
          then some (
            Codes.sam_stat_check_condition,
            record env {
              cmd = cmd;
              it_nexus_list = put_itn_lu_info left id env.dev.lun env.it_nexus_list;
            },
          )
          else dispatch bits supported handlers env
    ]

unfoldable pub scsi_cmd_perform : (ℕ → ℕ) → (ℕ → Bool) → (ℕ → Env → Outcome) → Env → Outcome
unfolding attend clear_luns_changed
scsi_cmd_perform bits supported handlers env =
    let op = byte env.cmd.scb 0 in
    let control = cdb_control env.cmd in
    if bit control 0 || bit control 2
    then illegal Codes.sam_stat_check_condition Codes.asc_invalid_field_in_cdb env
    else if not (env.dev.lun == env.cmd.dev_id) && not (op == Codes.inquiry)
    then illegal
        (if op == Codes.request_sense then Codes.sam_stat_good else Codes.sam_stat_check_condition)
        Codes.asc_lun_not_supported env
    else if op == Codes.inquiry
    then dispatch bits supported handlers env
    else if op == Codes.report_luns
    then dispatch bits supported handlers (clear_luns_changed env)
    else attend bits supported handlers env (not (op == Codes.request_sense))
