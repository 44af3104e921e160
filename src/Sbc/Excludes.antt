-- ===== src/Sbc/Excludes.antt =====
-- A disk that a nexus has reserved (`spc_pr_reserve` and `spc_access_check` of usr/spc.c, with the
-- table of usr/sbc.c).
use tgt.Base.{◌≡◌, refl, true, none, some, byte, is_one_of, ◌∙◌, subst}
use tgt.Scsi.Codes
use tgt.Scsi.Cmd.{ScsiCmd}
use tgt.Scsi.Lu.{Env}
use tgt.Spc.Registration.{registration_of}
use tgt.Spc.Reserve.{spc_pr_reserve}
use tgt.Spc.Access.{spc_access_check, holds}
use tgt.Spc.Invariant.{IsValid, IsSafe, spc_pr_reserve-IsSafe}
use tgt.Spc.Reserved.{spc_pr_reserve-holds}
use tgt.Sbc.Ops.{sbc_pr_conflict_bits, barred_by_all}
use tgt.Sbc.Protection.{spc_access_check_lem}

-- After a RESERVE that returns GOOD on a valid logical unit, whatever its type, a command that
-- changes the medium by WRITE, changes or reads mode pages or flushes the cache is refused if its
-- nexus is not registered.
pub spc_pr_reserve-excludes :
    (env after : Env) (cmd : ScsiCmd)
    → IsValid env.dev
    → spc_pr_reserve env ≡ some (Codes.sam_stat_good, after)
    → registration_of (record after { cmd = cmd }) ≡ none
    → is_one_of (byte cmd.scb 0) barred_by_all ≡ true
    → spc_access_check sbc_pr_conflict_bits (record after { cmd = cmd }) ≡ some true
unfolding holds
spc_pr_reserve-excludes env after cmd v e stranger op =
    let (h, d, _, _) = spc_pr_reserve-holds env after v e in
    let valid : IsValid after.dev = subst IsSafe e (spc_pr_reserve-IsSafe env v) in
    spc_access_check_lem (record after { cmd = cmd }) h valid d ∙ rw (stranger, op) refl
