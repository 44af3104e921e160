-- ===== src/Scsi/Cmd.antt =====
-- `struct scsi_cmd` and its data buffers (usr/scsi_cmnd.h), and the sense data of a failed
-- command (`sense_data_build` of usr/scsi.c).
--
-- An int32_t residual is kept as its bit pattern, a number below 2 ^ 32. `it_nexus` stands for the
-- two fields of the nexus that the handlers read through the pointer.
use tgt.Base.{ℕ, ◌+◌, ◌-◌, ◌/◌, ◌%◌, ◌^◌, Bool, true, false, Buffer, store, leb, u32, if◌then◌else◌}

pub record DataBuffer : Type 0 where
  pub buffer : Buffer
  pub length : ℕ
  pub transfer_len : ℕ
  pub resid : ℕ

pub data DataDirection : Type 0 where
  data_none data_write data_read data_bidirectional : DataDirection

pub record NexusId : Type 0 where
  pub itn_id : ℕ
  pub ctime : ℕ

pub record ScsiCmd : Type 0 where
  pub dev_id : ℕ
  pub data_dir : DataDirection
  pub in_sdb : DataBuffer
  pub out_sdb : DataBuffer
  pub cmd_itn_id : ℕ
  pub offset : ℕ
  pub tl : ℕ
  pub scb : Buffer
  pub scb_len : ℕ
  pub attribute : ℕ
  pub tag : ℕ
  pub result : ℕ
  pub sense_buffer : Buffer
  pub sense_len : ℕ
  pub it_nexus : NexusId

-- The shared body of `scsi_set_in_resid_by_actual` and `scsi_set_out_resid_by_actual`.
unfoldable pub resid_by_actual : DataBuffer → ℕ → DataBuffer
resid_by_actual sdb len =
    if leb len sdb.length
    then record sdb { transfer_len = len; resid = u32 (sdb.length - len) }
    else record sdb { transfer_len = sdb.length; resid = u32 (2 ^ 32 - u32 (len - sdb.length)) }

unfoldable pub set_in_resid_by_actual : ScsiCmd → ℕ → ScsiCmd
set_in_resid_by_actual cmd len = record cmd { in_sdb = resid_by_actual cmd.in_sdb len }

unfoldable pub set_out_resid_by_actual : ScsiCmd → ℕ → ScsiCmd
set_out_resid_by_actual cmd len = record cmd { out_sdb = resid_by_actual cmd.out_sdb len }

-- The sense bytes for a key and a code, written over `b`: descriptor format, or fixed format.
unfoldable pub write_sense : Bool → ℕ → ℕ → Buffer → Buffer
write_sense true key asc b =
    store (store (store (store b 0 0x72) 1 key) 2 (asc / 2 ^ 8 % 2 ^ 8)) 3 (asc % 2 ^ 8)
write_sense false key asc b =
    store (store (store (store (store b 0 0x70) 2 key) 7 0xa) 12 (asc / 2 ^ 8 % 2 ^ 8)) 13
      (asc % 2 ^ 8)

unfoldable pub sense_length : Bool → ℕ
sense_length true = 8
sense_length false = 0xa + 8

unfoldable pub sense_data_build : Bool → ScsiCmd → ℕ → ℕ → ScsiCmd
sense_data_build format cmd key asc = record cmd {
  sense_buffer = write_sense format key asc cmd.sense_buffer;
  sense_len = sense_length format;
}
