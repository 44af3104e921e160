-- ===== src/Scsi/Ranges.antt =====
-- The fields that usr/scsi.c reads out of a command block fit their C types.
use tgt.Base.{
  ℕ, ◌+◌, ◌^◌, ◌<◌, inl, inr, Buffer, byte, arith, is_one_of, Bool-cases, get_unaligned_be16,
  get_unaligned_be32, get_unaligned_be64,
}
use tgt.Scsi.Cdb.{rw_6, rw_10, rw_12, rw_16, scsi_rw_offset, scsi_rw_count}

pub get_unaligned_be16_lt : (p : Buffer) (i : ℕ) → get_unaligned_be16 p i < 2 ^ 16
unfolding get_unaligned_be16
get_unaligned_be16_lt p i = omega arith

pub get_unaligned_be32_lt : (p : Buffer) (i : ℕ) → get_unaligned_be32 p i < 2 ^ 32
unfolding get_unaligned_be32
get_unaligned_be32_lt p i = omega arith

pub get_unaligned_be64_lt : (p : Buffer) (i : ℕ) → get_unaligned_be64 p i < 2 ^ 64
unfolding get_unaligned_be64
get_unaligned_be64_lt p i =
    omega (arith, get_unaligned_be32_lt p i, get_unaligned_be32_lt p (i + 4))

pub scsi_rw_offset_lt : (scb : Buffer) → scsi_rw_offset scb < 2 ^ 64
unfolding scsi_rw_offset
scsi_rw_offset_lt scb = elim (Bool-cases (is_one_of (byte scb 0) rw_6)) [
  | inl e ↦ rw e (omega arith)
  | inr e ↦ rw e (elim (Bool-cases (is_one_of (byte scb 0) rw_10)) [
    | inl f ↦ rw f (omega (arith, get_unaligned_be32_lt scb 2))
    | inr f ↦ rw f (elim (Bool-cases (is_one_of (byte scb 0) rw_12)) [
      | inl g ↦ rw g (omega (arith, get_unaligned_be32_lt scb 2))
      | inr g ↦ rw g (elim (Bool-cases (is_one_of (byte scb 0) rw_16)) [
        | inl h ↦ rw h (get_unaligned_be64_lt scb 2)
        | inr h ↦ rw h (ground (arith, get_unaligned_be64_lt scb 2))
      ])
    ])
  ])
]

pub scsi_rw_count_lt : (scb : Buffer) → scsi_rw_count scb < 2 ^ 32
unfolding scsi_rw_count
scsi_rw_count_lt scb = elim (Bool-cases (is_one_of (byte scb 0) rw_6)) [
  | inl e ↦ rw e (ground arith)
  | inr e ↦ rw e (elim (Bool-cases (is_one_of (byte scb 0) rw_10)) [
    | inl f ↦ rw f (omega (arith, get_unaligned_be16_lt scb 7))
    | inr f ↦ rw f (elim (Bool-cases (is_one_of (byte scb 0) rw_12)) [
      | inl g ↦ rw g (get_unaligned_be32_lt scb 6)
      | inr g ↦ rw g (elim (Bool-cases (is_one_of (byte scb 0) rw_16)) [
        | inl h ↦ rw h (get_unaligned_be32_lt scb 10)
        | inr h ↦ rw h (ground arith)
      ])
    ])
  ])
]
