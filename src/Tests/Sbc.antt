-- ===== src/Tests/Sbc.antt =====
-- READ and WRITE of a small disk.
use tgt.Base.{
  ◌+◌, ◌*◌, ◌^◌, ◌≤◌, ◌≡◌, refl, [], ◌∷◌, none, arith, get_unaligned_be16, get_unaligned_be32,
}
use tgt.Scsi.Cmd.{ScsiCmd}
use tgt.Scsi.Cdb.{scsi_rw_offset, scsi_rw_count}
use tgt.Scsi.Lu.{Env}
use tgt.Target.Reserve.{device_reserved}
use tgt.Sbc.Rw.{prepare, submits, transfer, blocks, cdb_fault, transfer_blocks, beyond_end}
use tgt.Sbc.Bounds.{submits-within, write-within}
use tgt.Tests.Spc.{disk, command}

-- WRITE(10) of two blocks at block 3, with 24 bytes of data, on a disk of 2048 blocks.
abbrev write_3 : Env
write_3 = record {
  cmd = command 2 (0x2a ∷ 0 ∷ 0 ∷ 0 ∷ 0 ∷ 3 ∷ 0 ∷ 0 ∷ 2 ∷ []) [];
  dev = disk [] none;
  it_nexus_list = [];
}

abbrev handed : ScsiCmd
handed = transfer write_3.cmd 9 3 2

write_3_submits : prepare write_3 ≡ submits handed
unfolding prepare device_reserved cdb_fault transfer_blocks scsi_rw_count scsi_rw_offset beyond_end
    transfer get_unaligned_be16 get_unaligned_be32
write_3_submits = refl

submits-within_example :
    (scsi_rw_offset write_3.cmd.scb + transfer_blocks write_3 ≤ blocks write_3.dev)
    × (handed.offset ≡ scsi_rw_offset write_3.cmd.scb * 2 ^ 9)
    × (handed.offset + handed.tl ≤ 2 ^ 20)
submits-within_example = submits-within write_3 handed (omega arith) write_3_submits

write-within_example : handed.offset + handed.out_sdb.length ≤ 2 ^ 20
write-within_example = write-within write_3 handed (omega arith) refl write_3_submits
