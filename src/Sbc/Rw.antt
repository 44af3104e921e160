-- ===== src/Sbc/Rw.antt =====
-- READ and WRITE of a disk: `sbc_rw` of usr/sbc.c.
--
-- The backing store's `bs_cmd_submit` is an argument of the model: it takes the command as it is
-- handed over, and returns a result and what it left. The checks before it are `prepare`.
use tgt.Base.{
  zero, suc, ℕ, ◌+◌, ◌-◌, ◌*◌, ◌/◌, ◌^◌, Bool, not, ◌&&◌, ◌||◌, Option, none, some, List, [], ◌∷◌,
  byte, bit, u32, u64, ltb, leb, ◌==◌, is_one_of, if◌then◌else◌,
}
use tgt.Scsi.Codes
use tgt.Scsi.Cmd.{ScsiCmd, set_in_resid_by_actual, set_out_resid_by_actual, sense_data_build}
use tgt.Scsi.Cdb.{scsi_rw_offset, scsi_rw_count}
use tgt.Scsi.Lu.{ScsiLu, Env, Outcome}
use tgt.Target.Reserve.{device_reserved}

-- The groups of operation codes of the three `switch` statements.
abbrev pub protected_ops : List ℕ
protected_ops =
    Codes.read_10 ∷ Codes.read_12 ∷ Codes.read_16 ∷ Codes.write_10 ∷ Codes.write_12 ∷ Codes.write_16
    ∷ Codes.orwrite_16 ∷ Codes.write_verify ∷ Codes.write_verify_12 ∷ Codes.write_verify_16
    ∷ Codes.compare_and_write ∷ []

abbrev pub write_same_ops : List ℕ
write_same_ops = Codes.write_same ∷ Codes.write_same_16 ∷ []

abbrev pub medium_write_ops : List ℕ
medium_write_ops =
    Codes.write_6 ∷ Codes.write_10 ∷ Codes.write_12 ∷ Codes.write_16 ∷ Codes.orwrite_16
    ∷ Codes.write_verify ∷ Codes.write_verify_12 ∷ Codes.write_verify_16 ∷ Codes.write_same
    ∷ Codes.write_same_16 ∷ Codes.pre_fetch_10 ∷ Codes.pre_fetch_16 ∷ Codes.compare_and_write ∷ []

abbrev pub read_ops : List ℕ
read_ops = Codes.read_6 ∷ Codes.read_10 ∷ Codes.read_12 ∷ Codes.read_16 ∷ []

abbrev pub write_ops : List ℕ
write_ops =
    Codes.write_6 ∷ Codes.write_10 ∷ Codes.write_12 ∷ Codes.write_16 ∷ Codes.write_verify
    ∷ Codes.write_verify_12 ∷ Codes.write_verify_16 ∷ []

-- The size of the medium in blocks.
abbrev pub blocks : ScsiLu → ℕ
blocks lu = lu.size / 2 ^ lu.blk_shift

-- The tests of the first `switch`: the additional sense code of the first that fails.
unfoldable pub cdb_fault : Env → Option ℕ
cdb_fault env =
    let op = byte env.cmd.scb 0 in
    let flags = byte env.cmd.scb 1 in
    if is_one_of op protected_ops
    then if flags / 2 ^ 5 == 0 then none else some Codes.asc_invalid_field_in_cdb
    else if is_one_of op write_same_ops
    then if bit flags 4
      then some Codes.asc_invalid_field_in_cdb
      else if bit flags 3 && not env.dev.thinprovisioning
      then some Codes.asc_invalid_field_in_cdb
      else if not (flags / 2 ^ 5 == 0)
      then some Codes.asc_invalid_field_in_cdb
      else if bit flags 1 && bit flags 2
      then some Codes.asc_invalid_field_in_cdb
      else if not (env.cmd.out_sdb.length == 0)
          && not (2 ^ env.dev.blk_shift == env.cmd.out_sdb.length)
      then some Codes.asc_parameter_list_length_err
      else none
    else none

-- `tl` after the first `switch`: WRITE SAME with a count of 0 runs to the end of the medium.
unfoldable pub transfer_blocks : Env → ℕ
transfer_blocks env =
    if is_one_of (byte env.cmd.scb 0) write_same_ops && (scsi_rw_count env.cmd.scb == 0)
    then u32 (blocks env.dev + 2 ^ 64 - scsi_rw_offset env.cmd.scb)
    else scsi_rw_count env.cmd.scb

-- The test for a transfer beyond the end, on uint64_t.
unfoldable pub beyond_end : ℕ → ℕ → ℕ → Bool
beyond_end lba tl size =
    if tl == 0 then leb size lba else ltb (u64 (lba + tl)) lba || ltb size (u64 (lba + tl))

-- The data of a write is cut to `tl`.
abbrev pub clamp : ScsiCmd → ScsiCmd
clamp cmd = record cmd { out_sdb = record (cmd.out_sdb) { length = cmd.tl } }

-- The residuals, and the clamp of a write to `tl`.
unfoldable pub handle_residuals : ScsiCmd → ScsiCmd
handle_residuals cmd =
    if is_one_of (byte cmd.scb 0) read_ops
    then if cmd.tl == cmd.in_sdb.length then cmd else set_in_resid_by_actual cmd cmd.tl
    else if is_one_of (byte cmd.scb 0) write_ops
    then if cmd.tl == cmd.out_sdb.length
      then cmd
      else if ltb cmd.tl cmd.out_sdb.length
      then clamp (set_out_resid_by_actual cmd cmd.tl)
      else set_out_resid_by_actual cmd cmd.tl
    else cmd

abbrev pub placed : ScsiCmd → ℕ → ℕ → ℕ → ScsiCmd
placed cmd shift lba tl = record cmd { offset = u64 (lba * 2 ^ shift); tl = u32 (tl * 2 ^ shift) }

-- The command that goes to the backing store.
unfoldable pub transfer : ScsiCmd → ℕ → ℕ → ℕ → ScsiCmd
unfolding handle_residuals
transfer cmd shift lba tl = handle_residuals (placed cmd shift lba tl)

pub data Prepared : Type 0 where
  conflict : Prepared
  refused : ℕ → ℕ → Prepared
  submits : ScsiCmd → Prepared

unfoldable pub prepare_range : Env → ℕ → ℕ → Prepared
prepare_range env lba tl =
    if (env.dev.readonly || env.dev.swp) && is_one_of (byte env.cmd.scb 0) medium_write_ops
    then refused Codes.data_protect Codes.asc_write_protect
    else if beyond_end lba tl (blocks env.dev)
    then refused Codes.illegal_request Codes.asc_lba_out_of_range
    else submits (transfer env.cmd env.dev.blk_shift lba tl)

unfoldable pub prepare : Env → Prepared
unfolding prepare_range
prepare env =
    if device_reserved env
    then conflict
    else if env.dev.removable && not env.dev.online
    then refused Codes.not_ready Codes.asc_medium_not_present
    else elim (cdb_fault env) [
      | some asc ↦ refused Codes.illegal_request asc
      | none ↦ prepare_range env (scsi_rw_offset env.cmd.scb) (transfer_blocks env)
    ]

-- The label `sense:`, which clears the offset and both residuals.
unfoldable pub rw_sense : ℕ → ℕ → Env → Outcome
rw_sense key asc env =
    let cleared = record (env.cmd) { offset = 0 } in
    some (
      Codes.sam_stat_check_condition,
      record env {
        cmd =
            sense_data_build env.dev.sense_format
              (set_out_resid_by_actual (set_in_resid_by_actual cleared 0) 0) key asc;
      },
    )

-- `submit` is `bs_cmd_submit`: its result is 0, or an error.
unfoldable pub after_submit : ℕ × Env → Outcome
unfolding rw_sense
after_submit (zero, env) = some (Codes.sam_stat_good, env)
after_submit (suc e, env) = rw_sense Codes.hardware_error Codes.asc_internal_tgt_failure env

unfoldable pub sbc_rw : (Env → ℕ × Env) → Env → Outcome
unfolding prepare after_submit
sbc_rw submit env = elim (prepare env) [
  | conflict ↦ some (Codes.sam_stat_reservation_conflict, env)
  | refused key asc ↦ rw_sense key asc env
  | submits cmd ↦ after_submit (submit (record env { cmd = cmd }))
]
