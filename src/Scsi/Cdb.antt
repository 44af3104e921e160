-- ===== src/Scsi/Cdb.antt =====
-- What usr/scsi.c reads out of a command descriptor block: its size and control byte, the logical
-- unit, the offset and count of a transfer, and the direction of its data.
use tgt.Base.{
  ℕ, ◌+◌, ◌-◌, ◌*◌, ◌/◌, ◌%◌, ◌^◌, Bool, List, [], ◌∷◌, Buffer, byte, ltb, ◌==◌, if◌then◌else◌,
  is_one_of, get_or, get_unaligned_be16, get_unaligned_be32, get_unaligned_be64,
}
use tgt.Scsi.Cmd.{ScsiCmd, DataDirection, data_write, data_read}
use tgt.Scsi.Codes

abbrev pub scsi_command_size : List ℕ
scsi_command_size = 6 ∷ 10 ∷ 10 ∷ 12 ∷ 16 ∷ 12 ∷ 10 ∷ 10 ∷ []

unfoldable pub get_scsi_command_size : ℕ → ℕ
get_scsi_command_size op = get_or scsi_command_size (op / 2 ^ 5 % 2 ^ 3) 0

unfoldable pub get_scsi_cdb_size : ScsiCmd → ℕ
unfolding get_scsi_command_size
get_scsi_cdb_size cmd =
    if ltb (byte cmd.scb 0 / 2 ^ 5 % 2 ^ 3) 6
    then get_scsi_command_size (byte cmd.scb 0)
    else cmd.scb_len

-- CDB_CONTROL
unfoldable pub cdb_control : ScsiCmd → ℕ
unfolding get_scsi_cdb_size
cdb_control cmd =
    if byte cmd.scb 0 == 0x7f then byte cmd.scb 1 else byte cmd.scb (get_scsi_cdb_size cmd - 1)

-- TGT_INVALID_DEV_ID
abbrev pub invalid_dev_id : ℕ
invalid_dev_id = 2 ^ 64 - 1

-- `__scsi_get_devid`, on the eight bytes of a LUN.
unfoldable pub scsi_get_devid : Buffer → ℕ
scsi_get_devid p =
    if byte p 0 / 2 ^ 6 == 0
    then byte p 1
    else if byte p 0 / 2 ^ 6 == 1
    then byte p 0 % 2 ^ 6 * 2 ^ 8 + byte p 1
    else invalid_dev_id

-- The groups of labels of the `switch` statements of `scsi_rw_offset` and `scsi_rw_count`.
abbrev pub rw_6 : List ℕ
rw_6 = Codes.read_6 ∷ Codes.write_6 ∷ []

abbrev pub rw_10 : List ℕ
rw_10 =
    Codes.read_10 ∷ Codes.pre_fetch_10 ∷ Codes.write_10 ∷ Codes.verify_10 ∷ Codes.write_verify
    ∷ Codes.write_same ∷ Codes.synchronize_cache ∷ []

abbrev pub rw_12 : List ℕ
rw_12 = Codes.read_12 ∷ Codes.write_12 ∷ Codes.verify_12 ∷ Codes.write_verify_12 ∷ []

abbrev pub rw_16 : List ℕ
rw_16 =
    Codes.read_16 ∷ Codes.pre_fetch_16 ∷ Codes.write_16 ∷ Codes.orwrite_16 ∷ Codes.verify_16
    ∷ Codes.write_verify_16 ∷ Codes.write_same_16 ∷ Codes.synchronize_cache_16 ∷ []

unfoldable pub scsi_rw_offset : Buffer → ℕ
scsi_rw_offset scb =
    let op = byte scb 0 in
    if is_one_of op rw_6
    then byte scb 1 % 2 ^ 5 * 2 ^ 16 + byte scb 2 * 2 ^ 8 + byte scb 3
    else if is_one_of op rw_10
    then get_unaligned_be32 scb 2
    else if is_one_of op rw_12
    then get_unaligned_be32 scb 2
    else if is_one_of op rw_16
    then get_unaligned_be64 scb 2
    else if op == Codes.compare_and_write
    then get_unaligned_be64 scb 2
    else 0

unfoldable pub scsi_rw_count : Buffer → ℕ
scsi_rw_count scb =
    let op = byte scb 0 in
    if is_one_of op rw_6
    then (if byte scb 4 == 0 then 256 else byte scb 4)
    else if is_one_of op rw_10
    then get_unaligned_be16 scb 7
    else if is_one_of op rw_12
    then get_unaligned_be32 scb 6
    else if is_one_of op rw_16
    then get_unaligned_be32 scb 10
    else if op == Codes.compare_and_write
    then byte scb 13
    else 0

unfoldable pub scsi_is_io_opcode : ℕ → Bool
scsi_is_io_opcode op = is_one_of op (
    Codes.read_6 ∷ Codes.write_6 ∷ Codes.read_10 ∷ Codes.write_10 ∷ Codes.verify_10
    ∷ Codes.write_verify ∷ Codes.read_12 ∷ Codes.write_12 ∷ Codes.verify_12 ∷ Codes.write_verify_12
    ∷ Codes.read_16 ∷ Codes.write_16 ∷ Codes.orwrite_16 ∷ Codes.verify_16 ∷ Codes.write_verify_16
    ∷ Codes.compare_and_write ∷ [])

unfoldable pub scsi_data_dir_opcode : ℕ → DataDirection
scsi_data_dir_opcode op =
    if is_one_of op (
      Codes.write_6 ∷ Codes.write_10 ∷ Codes.write_12 ∷ Codes.write_16 ∷ Codes.orwrite_16
      ∷ Codes.write_verify ∷ Codes.write_verify_12 ∷ Codes.write_verify_16 ∷ Codes.compare_and_write
      ∷ [])
    then data_write
    else data_read
