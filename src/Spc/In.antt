-- ===== src/Spc/In.antt =====
-- PERSISTENT RESERVE IN of usr/spc.c, with `spc_memcpy` of usr/util.c.
use tgt.Base.{
  ℕ, ◌+◌, ◌-◌, ◌*◌, ◌%◌, ◌^◌, Bool, ◌||◌, Option, none, some, List, [], ◌∷◌, ◌++◌, ltb, min, length,
  take, replicate, if◌then◌else◌, Buffer, u32, get_unaligned_be16, put_unaligned_be32, store_bytes,
  be32_bytes, be64_bytes,
}
use tgt.Scsi.Cmd.{set_in_resid_by_actual}
use tgt.Scsi.Codes
use tgt.Scsi.Lu.{Registration, ScsiLu, Env, Outcome, sense}
use tgt.Spc.Registration.{is_allreg, deref_holder}

-- A buffer that is filled from the start, with the room that is left, how many bytes it has and how
-- many there would have been.
pub record Copy : Type 0 where
  pub copied : Buffer
  pub remain_len : ℕ
  pub actual_len : ℕ
  pub avail_len : ℕ

-- To `buf[actual_len]`, with `actual_len += spc_memcpy(...)` and `avail_len` counted on.
unfoldable pub spc_memcpy : List ℕ → Copy → Copy
unfolding store_bytes
spc_memcpy src c =
    let n = min c.remain_len (length src) in
    record {
      copied = store_bytes c.copied c.actual_len (take n src);
      remain_len = c.remain_len - n;
      actual_len = u32 (c.actual_len + n);
      avail_len = u32 (c.avail_len + length src);
    }

unfoldable pub copy_keys : List Registration → Copy → Copy
unfolding spc_memcpy
copy_keys [] c = c
copy_keys (reg ∷ regs) c = copy_keys regs (spc_memcpy (be64_bytes reg.key) c)

abbrev pub alloc_len : Env → ℕ
alloc_len env = get_unaligned_be16 env.cmd.scb 7

-- The jumps to `sense` of the three service actions.
abbrev pub is_short : Env → Bool
is_short env = ltb (alloc_len env) 8 || ltb env.cmd.in_sdb.length (alloc_len env)

abbrev pub answer_good : Buffer → ℕ → Env → Outcome
answer_good buf actual env = some (
  Codes.sam_stat_good,
  record env {
    cmd =
        set_in_resid_by_actual (record env.cmd { in_sdb = record env.cmd.in_sdb { buffer = buf } })
          actual;
  },
)

-- The keys from offset 8 on.
unfoldable pub keys_from : Env → Copy
unfolding copy_keys
keys_from env = copy_keys env.dev.registration_list (record {
  copied = put_unaligned_be32 env.dev.prgeneration env.cmd.in_sdb.buffer 0;
  remain_len = alloc_len env - 8;
  actual_len = 8;
  avail_len = 8;
})

unfoldable pub spc_pr_read_keys : Env → Outcome
unfolding keys_from
spc_pr_read_keys env =
    let c = keys_from env in
    if is_short env
    then sense Codes.illegal_request Codes.asc_invalid_field_in_cdb env
    else answer_good (put_unaligned_be32 (u32 (c.avail_len + (2 ^ 32 - 8))) c.copied 4) c.actual_len
        env

-- `(pr_scope << 4) & 0xf0`, and the type in the other four bits.
abbrev pub scope_and_type : Registration → ℕ
scope_and_type reg = reg.pr_scope % 2 ^ 4 * 2 ^ 4 + reg.pr_type % 2 ^ 4

abbrev pub reported_key : Registration → ℕ
reported_key reg = if is_allreg reg.pr_type then 0 else reg.key

-- `buf`, as far as `avail_len` goes.
unfoldable pub reservation_bytes : ScsiLu → Option Registration → List ℕ
reservation_bytes lu none = be32_bytes lu.prgeneration ++ be32_bytes 0
reservation_bytes lu (some reg) =
    be32_bytes lu.prgeneration
    ++ (be32_bytes 16
        ++ (be64_bytes (reported_key reg)
            ++ (replicate 5 0 ++ (scope_and_type reg ∷ replicate 2 0))))

-- The data from the start, cut to the allocation length.
abbrev pub answer_bytes : List ℕ → Env → Outcome
answer_bytes src env =
    let c = spc_memcpy src (record {
      copied = env.cmd.in_sdb.buffer;
      remain_len = alloc_len env;
      actual_len = 0;
      avail_len = 0;
    }) in
    answer_good c.copied c.actual_len env

unfoldable pub spc_pr_read_reservation : Env → Outcome
unfolding reservation_bytes
spc_pr_read_reservation env =
    if is_short env
    then sense Codes.illegal_request Codes.asc_invalid_field_in_cdb env
    else elim (deref_holder env.dev) [
      | none ↦ none
      | some holder ↦ answer_bytes (reservation_bytes env.dev holder) env
    ]

unfoldable pub spc_pr_report_capabilities : Env → Outcome
spc_pr_report_capabilities env =
    if is_short env
    then sense Codes.illegal_request Codes.asc_invalid_field_in_cdb env
    else answer_bytes (0 ∷ 8 ∷ 0 ∷ 0x80 ∷ 0xea ∷ 0x01 ∷ 0 ∷ 0 ∷ []) env
