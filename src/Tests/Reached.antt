-- ===== src/Tests/Reached.antt =====
-- A logical unit after REGISTER, at RESERVE.
use tgt.Base.{
  ℕ, Bool, ◌≡◌, refl, [], ◌∷◌, none, some, arith, get_unaligned_be32, get_unaligned_be64,
}
use tgt.Scsi.Codes
use tgt.Scsi.Lu.{Env}
use tgt.Spc.Registration.{lookup_registration_by_nexus, check_pr_out_basic_parameter}
use tgt.Spc.Register.{spc_pr_register}
use tgt.Spc.Access.{spc_access_check}
use tgt.Spc.Actions.{
  find_service_action, spc_service_action, persistent_reserve_in_actions,
  persistent_reserve_out_actions,
}
use tgt.Spc.Invariant.{IsValid}
use tgt.Spc.Reached.{Admissible, Reached, created, reserved_out, Reached-answers}
use tgt.Sbc.Ops.{sbc_pr_conflict_bits}
use tgt.Tests.Spc.{pr_out, disk, env_of}

-- Nexus 1 registers the key 11.
abbrev registers : Env
registers = env_of (disk [] none) (pr_out 1 0 0 0 11)

abbrev registered : Env
registered = record registers {
  dev =
      record (disk
        (record { addr = 4096; key = 11; nexus_id = 1; ctime = 100; pr_scope = 0; pr_type = 0 }
          ∷ [])
        none) { prgeneration = 3 };
}

-- It then reserves the unit for all registrants.
abbrev reserves : Env
reserves = record registered { cmd = pr_out 1 1 7 11 0 }

register_is_good :
    spc_service_action (persistent_reserve_out_actions (some 4096) none) registers
    ≡ some (Codes.sam_stat_good, registered)
unfolding spc_service_action find_service_action spc_pr_register check_pr_out_basic_parameter
    get_unaligned_be32 get_unaligned_be64 lookup_registration_by_nexus
register_is_good = refl

registers-Admissible : Admissible (some 4096) registers
registers-Admissible = record {
  fresh = tt;
  queued = refl;
  not_move = omega arith;
  preempts = λ e. absurd (omega (arith, e));
}

reserves-Admissible : Admissible none reserves
reserves-Admissible = record {
  fresh = tt;
  queued = refl;
  not_move = omega arith;
  preempts = λ e. absurd (omega (arith, e));
}

reserves-Reached : Reached reserves.dev
reserves-Reached =
    reserved_out (some 4096) none registers registered Codes.sam_stat_good
      (created (disk [] none) refl refl) registers-Admissible register_is_good

Reached-answers_example :
    IsValid reserves.dev
    × ((status : ℕ) × (after : Env) × (spc_service_action
            (persistent_reserve_out_actions none none)
            reserves
          ≡ some (status, after)))
    × ((status : ℕ) × (after : Env) × (spc_service_action persistent_reserve_in_actions reserves
          ≡ some (status, after)))
    × ((conflict : Bool) × (spc_access_check sbc_pr_conflict_bits reserves ≡ some conflict))
Reached-answers_example =
    Reached-answers none none sbc_pr_conflict_bits reserves reserves-Reached reserves-Admissible
