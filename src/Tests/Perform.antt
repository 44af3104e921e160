-- ===== src/Tests/Perform.antt =====
-- A WRITE(10) of nexus 3 on its way to the handler, with and without a unit attention.
use tgt.Base.{ℕ, ◌<◌, ◌≤◌, Bool, true, ◌≡◌, refl, some, none, List, [], ◌∷◌, zeroed}
use tgt.Scsi.Codes
use tgt.Scsi.Cdb.{cdb_control, get_scsi_cdb_size, get_scsi_command_size}
use tgt.Scsi.Lu.{Env, Outcome}
use tgt.Target.Nexus.{UaSense, ItlInfo}
use tgt.Sbc.Ops.{sbc_pr_conflict_bits}
use tgt.Perform.{itn_lu_info, scsi_cmd_perform}
use tgt.Perform.Guards.{IsOrdinary, scsi_cmd_perform-attention}
use tgt.Tests.Spc.{command, disk}

abbrev changed : UaSense
changed = record { ua_sense_buffer = zeroed; ua_sense_len = 18 }

abbrev info_of : List UaSense → ItlInfo
info_of pending = record { lun = 1; prevent = 0; pending_ua_sense_list = pending }

abbrev write_env : List UaSense → Env
write_env pending = record {
  cmd = command 3 (0x2a ∷ []) [];
  dev = disk [] none;
  it_nexus_list =
      record { itn_id = 3; ctime = 100; host_no = 0; itn_itl_info_list = info_of pending ∷ [] }
      ∷ [];
}

abbrev all_supported : ℕ → Bool
all_supported op = true

abbrev does_nothing : ℕ → Env → Outcome
does_nothing op env = some (0, env)

write_IsOrdinary : (pending : List UaSense) → IsOrdinary (write_env pending)
unfolding cdb_control get_scsi_cdb_size get_scsi_command_size
write_IsOrdinary pending = record { plain = refl; addressed = refl; no_exception = refl }

scsi_cmd_perform-attention_example :
    (after : Env) × (scsi_cmd_perform sbc_pr_conflict_bits all_supported does_nothing
        (write_env (changed ∷ []))
      ≡ some (Codes.sam_stat_check_condition, after))
    × (after.cmd.sense_len ≡ 18)
    × ((j : ℕ) → j < after.cmd.sense_len → after.cmd.sense_buffer j ≡ changed.ua_sense_buffer j)
    × ((j : ℕ) → after.cmd.sense_len ≤ j → after.cmd.sense_buffer j ≡ zeroed j)
    × (record after.cmd { sense_buffer = zeroed; sense_len = 0 } ≡ command 3 (0x2a ∷ []) [])
    × (itn_lu_info 3 1 after.it_nexus_list ≡ some (info_of []))
    × (after.dev ≡ disk [] none)
unfolding itn_lu_info
scsi_cmd_perform-attention_example =
    scsi_cmd_perform-attention sbc_pr_conflict_bits all_supported does_nothing
      (write_env (changed ∷ [])) (info_of (changed ∷ [])) changed []
      (write_IsOrdinary (changed ∷ [])) refl refl
