-- ===== src/Sbc/Bounds.antt =====
-- The place of a transfer that `sbc_rw` of usr/sbc.c hands to the backing store.
use native.Mathlib.Nat.{div-mul-le_self, mul-le-mul_right, mod-le, div-le_self}
use tgt.Base.{
  ℕ, ◌+◌, ◌*◌, ◌^◌, ◌≤◌, ◌<◌, ◌≡◌, sym, subst, true, false, arith, byte, u32, u64, is_one_of,
}
use tgt.Scsi.Cmd.{ScsiCmd, resid_by_actual, set_in_resid_by_actual, set_out_resid_by_actual}
use tgt.Scsi.Cdb.{scsi_rw_offset}
use tgt.Scsi.Ranges.{scsi_rw_offset_lt, scsi_rw_count_lt}
use tgt.Scsi.Lu.{Env}
use tgt.Sbc.Rw.{
  submits, blocks, transfer_blocks, beyond_end, handle_residuals, read_ops, write_ops, placed,
  transfer, prepare,
}

-- A transfer that passes the test ends within the medium, also where the sum would wrap.
pub beyond_end-false :
    (lba tl size : ℕ)
    → lba < 2 ^ 64
    → tl < 2 ^ 32
    → size < 2 ^ 64
    → beyond_end lba tl size ≡ false
    → lba + tl ≤ size
unfolding beyond_end
beyond_end-false lba tl size hl ht hs e = ground arith

-- The residuals change neither the offset nor the length.
handle_residuals_fields :
    (cmd : ScsiCmd)
    → ((handle_residuals cmd).offset ≡ cmd.offset) × ((handle_residuals cmd).tl ≡ cmd.tl)
unfolding handle_residuals set_in_resid_by_actual set_out_resid_by_actual
handle_residuals_fields cmd = ground arith

transfer_fields :
    (cmd : ScsiCmd) (shift lba tl : ℕ)
    → ((transfer cmd shift lba tl).offset ≡ u64 (lba * 2 ^ shift))
      × ((transfer cmd shift lba tl).tl ≡ u32 (tl * 2 ^ shift))
unfolding transfer
transfer_fields cmd shift lba tl = handle_residuals_fields (placed cmd shift lba tl)

-- What the checks have established when the command goes to the backing store.
prepare-submits :
    (env : Env) (cmd : ScsiCmd)
    → prepare env ≡ submits cmd
    → (beyond_end (scsi_rw_offset env.cmd.scb) (transfer_blocks env) (blocks env.dev) ≡ false)
      × (cmd
          ≡ transfer env.cmd env.dev.blk_shift (scsi_rw_offset env.cmd.scb) (transfer_blocks env))
unfolding prepare
prepare-submits env cmd e = ground arith

transfer_blocks_lt : (env : Env) → transfer_blocks env < 2 ^ 32
unfolding transfer_blocks
transfer_blocks_lt env = ground (arith, scsi_rw_count_lt env.cmd.scb)

-- A command that the checks let through, on a medium of fewer than 2 ^ 64 bytes, asks for blocks
-- of the medium only; the byte offset does not wrap, and the offset with the length in bytes, the
-- command's `tl`, lies within the medium.
pub submits-within :
    (env : Env) (cmd : ScsiCmd)
    → env.dev.size < 2 ^ 64
    → prepare env ≡ submits cmd
    → (scsi_rw_offset env.cmd.scb + transfer_blocks env ≤ blocks env.dev)
      × (cmd.offset ≡ scsi_rw_offset env.cmd.scb * 2 ^ env.dev.blk_shift)
      × (cmd.offset + cmd.tl ≤ env.dev.size)
submits-within env cmd small e = (
  within,
  exact,
  omega (
    arith,
    ends,
    fields.0,
    fields.1,
    mod-le (transfer_blocks env * unit) (2 ^ 32),
    mod-le (scsi_rw_offset env.cmd.scb * unit) (2 ^ 64),
  ),
)
  where
    unit : ℕ
    unit = 2 ^ env.dev.blk_shift

    ready :
        (beyond_end (scsi_rw_offset env.cmd.scb) (transfer_blocks env) (blocks env.dev) ≡ false)
        × (cmd
            ≡ transfer env.cmd env.dev.blk_shift (scsi_rw_offset env.cmd.scb) (transfer_blocks env))
    ready = prepare-submits env cmd e

    within : scsi_rw_offset env.cmd.scb + transfer_blocks env ≤ blocks env.dev
    within =
        beyond_end-false _ _ _ (scsi_rw_offset_lt env.cmd.scb) (transfer_blocks_lt env)
          (omega (arith, div-le_self env.dev.size unit)) ready.0

    ends : scsi_rw_offset env.cmd.scb * unit + transfer_blocks env * unit ≤ env.dev.size
    ends = omega (arith, mul-le-mul_right unit within, div-mul-le_self env.dev.size unit)

    fields :
        (cmd.offset ≡ u64 (scsi_rw_offset env.cmd.scb * unit))
        × (cmd.tl ≡ u32 (transfer_blocks env * unit))
    fields =
        subst
          (λ c.
            (c.offset ≡ u64 (scsi_rw_offset env.cmd.scb * unit))
            × (c.tl ≡ u32 (transfer_blocks env * unit)))
          (sym ready.1) (transfer_fields env.cmd env.dev.blk_shift _ _)

    exact : cmd.offset ≡ scsi_rw_offset env.cmd.scb * unit
    exact = omega (arith, ends, fields.0)

write_is_no_read : (op : ℕ) → is_one_of op write_ops ≡ true → is_one_of op read_ops ≡ false
write_is_no_read op e = ground arith

clamped :
    (cmd : ScsiCmd)
    → is_one_of (byte cmd.scb 0) write_ops ≡ true
    → (handle_residuals cmd).out_sdb.length ≤ cmd.tl
unfolding handle_residuals set_out_resid_by_actual resid_by_actual
clamped cmd e = rw (write_is_no_read (byte cmd.scb 0) e) (rw e (ground arith))

-- A WRITE that the checks let through, on a medium of fewer than 2 ^ 64 bytes, hands no more data
-- to the backing store than fits between its offset and the end of the medium.
pub write-within :
    (env : Env) (cmd : ScsiCmd)
    → env.dev.size < 2 ^ 64
    → is_one_of (byte env.cmd.scb 0) write_ops ≡ true
    → prepare env ≡ submits cmd
    → cmd.offset + cmd.out_sdb.length ≤ env.dev.size
unfolding transfer
write-within env cmd small write e = omega (arith, (submits-within env cmd small e).2, cut)
  where
    cut : cmd.out_sdb.length ≤ cmd.tl
    cut =
        subst (λ c. c.out_sdb.length ≤ c.tl) (sym (prepare-submits env cmd e).1)
          (omega (
            arith,
            clamped
                (placed env.cmd env.dev.blk_shift (scsi_rw_offset env.cmd.scb)
                  (transfer_blocks env))
                write,
            (handle_residuals_fields (
                placed env.cmd env.dev.blk_shift (scsi_rw_offset env.cmd.scb)
                  (transfer_blocks env))).1,
          ))
