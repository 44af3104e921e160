-- ===== src/Tests/ReadKeys.antt =====
-- PERSISTENT RESERVE IN at a logical unit with two registrants.
use tgt.Base.{
  ℕ, ◌+◌, ◌^◌, ◌≡◌, refl, List, [], ◌∷◌, Option, none, some, arith, get_unaligned_be32,
  put_unaligned_be16, put_unaligned_be32, get_unaligned_be16,
}
use tgt.Scsi.Codes
use tgt.Scsi.Lu.{Registration, Env, Outcome, deref}
use tgt.Scsi.Cmd.{set_in_resid_by_actual, resid_by_actual}
use tgt.Spc.Registration.{deref_holder}
use tgt.Spc.In.{spc_pr_read_keys, spc_pr_read_reservation, spc_pr_report_capabilities, spc_memcpy}
use tgt.Spc.ReadKeys.{Reports, spc_pr_read_keys-Reports}
use tgt.Tests.Spc.{command, disk}

abbrev registrants : List Registration
registrants =
    record { addr = 4096; key = 11; nexus_id = 1; ctime = 100; pr_scope = 0; pr_type = 5 }
    ∷ record {
      addr = 8192;
      key = 2 ^ 40 + 22;
      nexus_id = 2;
      ctime = 100;
      pr_scope = 0;
      pr_type = 0;
    }
    ∷ []

-- A command block with the service action and the allocation length, with 32 bytes to receive.
abbrev pr_in : ℕ → ℕ → Env
pr_in action allocated =
    let cmd = command 1 (0x5e ∷ action ∷ 0 ∷ 0 ∷ 0 ∷ 0 ∷ 0 ∷ 0 ∷ allocated ∷ []) [] in
    record {
      it_nexus_list = [];
      dev = disk registrants (some 4096);
      cmd = record cmd { in_sdb = record cmd.in_sdb { length = 32 } };
    }

spc_pr_read_keys-Reports_example :
    (after : Env) × (spc_pr_read_keys (pr_in 0 24) ≡ some (Codes.sam_stat_good, after))
    × Reports (pr_in 0 24) after.cmd.in_sdb.buffer
    × (after.cmd.in_sdb.transfer_len ≡ 24)
    × (after.dev ≡ disk registrants (some 4096))
unfolding get_unaligned_be16
spc_pr_read_keys-Reports_example =
    spc_pr_read_keys-Reports (pr_in 0 24) refl (omega arith) (omega arith, (omega arith, _))
      (omega arith)

-- A field of the answer and the length of the transfer.
abbrev received : ℕ → Outcome → Option (ℕ × ℕ)
received i none = none
received i (some (status, env)) =
    some (get_unaligned_be32 env.cmd.in_sdb.buffer i, env.cmd.in_sdb.transfer_len)

-- The keys that are cut off are still counted.
short_list : received 4 (spc_pr_read_keys (pr_in 0 16)) ≡ some (16, 16)
unfolding spc_pr_read_keys get_unaligned_be16 get_unaligned_be32 set_in_resid_by_actual
    resid_by_actual put_unaligned_be32 put_unaligned_be16
short_list = refl

-- The holder's key is not told for an all-registrants reservation, type 8, but for type 5.
told_key : received 12 (spc_pr_read_reservation (pr_in 1 24)) ≡ some (11, 24)
unfolding spc_pr_read_reservation get_unaligned_be16 get_unaligned_be32 deref_holder deref
    set_in_resid_by_actual resid_by_actual spc_memcpy
told_key = refl

capabilities : received 0 (spc_pr_report_capabilities (pr_in 2 8)) ≡ some (0x00080080, 8)
unfolding spc_pr_report_capabilities get_unaligned_be16 get_unaligned_be32 set_in_resid_by_actual
    resid_by_actual spc_memcpy
capabilities = refl
