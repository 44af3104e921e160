-- ===== src/Tests/Spc.antt =====
-- Persistent reservations at a logical unit with two registrants.
use tgt.Base.{
  ℕ, ◌^◌, true, false, ◌≡◌, refl, List, [], ◌∷◌, Option, none, some, arith, Buffer, get_or, zeroed,
  get_unaligned_be32, get_unaligned_be64,
}
use tgt.Scsi.Codes
use tgt.Scsi.Cmd.{ScsiCmd, DataBuffer, data_write}
use tgt.Scsi.Lu.{modify, Registration, ScsiLu, Env, deref, unregister}
use tgt.Spc.Registration.{
  deref_holder, is_pr_holder, lookup_registration_by_nexus, check_pr_out_basic_parameter,
}
use tgt.Spc.Register.{spc_pr_register, unregister_and_clean, clean}
use tgt.Spc.Reserve.{spc_pr_reserve}
use tgt.Spc.Preempt.{spc_pr_preempt}
use tgt.Spc.Invariant.{IsValid, IsSafe}
use tgt.Spc.SafeRegister.{spc_pr_register-IsSafe}
use tgt.Spc.SafePreempt.{spc_pr_preempt-IsSafe}
use tgt.Spc.Stranded.{Strands, spc_pr_preempt-Strands}
use tgt.Spc.Registration.{lookup_registration_by_key}
use tgt.Spc.Move.{spc_pr_register_and_move, names_destination, bad_move_parameter}
use tgt.Spc.Moved.{Moves, spc_pr_register_and_move-holder}
use tgt.Spc.Registration.{cdb_type, cdb_scope}
use tgt.Spc.Reserved.{spc_pr_reserve-holds}
use tgt.Sbc.Excludes.{spc_pr_reserve-excludes}
use tgt.Spc.Access.{spc_access_check, holds}
use tgt.Sbc.Ops.{sbc_pr_conflict_bits}
use tgt.Sbc.Protection.{spc_access_check_lem, unguarded_writes-pass}

abbrev of_bytes : List ℕ → Buffer
of_bytes bs i = get_or bs i 0

abbrev no_data : DataBuffer
no_data = record { buffer = zeroed; length = 0; transfer_len = 0; resid = 0 }

-- A command of nexus `id` with the block `scb` and the parameters `params`.
abbrev pub command : ℕ → List ℕ → List ℕ → ScsiCmd
command id scb params = record {
  dev_id = 1;
  data_dir = data_write;
  in_sdb = no_data;
  out_sdb = record { buffer = of_bytes params; length = 24; transfer_len = 0; resid = 0 };
  cmd_itn_id = id;
  offset = 0;
  tl = 0;
  scb = of_bytes scb;
  scb_len = 16;
  attribute = Codes.msg_simple_tag;
  tag = 7;
  result = 0;
  sense_buffer = zeroed;
  sense_len = 0;
  it_nexus = record { itn_id = id; ctime = 100 };
}

abbrev pub pr_out : ℕ → ℕ → ℕ → ℕ → ℕ → ScsiCmd
pr_out id action type key sa_key =
    command id (0x5f ∷ action ∷ type ∷ 0 ∷ 0 ∷ 0 ∷ 0 ∷ 0 ∷ 24 ∷ [])
      (0 ∷ 0 ∷ 0 ∷ 0 ∷ 0 ∷ 0 ∷ 0 ∷ key ∷ 0 ∷ 0 ∷ 0 ∷ 0 ∷ 0 ∷ 0 ∷ 0 ∷ sa_key ∷ [])

-- Nexus 1 has key 11, and holds an all-registrants reservation if `type` says so.
abbrev first : ℕ → Registration
first type = record {
  addr = 4096;
  key = 11;
  nexus_id = 1;
  ctime = 100;
  pr_scope = 0;
  pr_type = type;
}

abbrev second : Registration
second = record { addr = 8192; key = 22; nexus_id = 2; ctime = 100; pr_scope = 0; pr_type = 0 }

abbrev pub disk : List Registration → Option ℕ → ScsiLu
disk regs holder = record {
  lun = 1;
  size = 2 ^ 20;
  blk_shift = 9;
  reserve_id = 0;
  removable = false;
  online = true;
  readonly = false;
  swp = false;
  thinprovisioning = false;
  sense_format = false;
  registration_list = regs;
  prgeneration = 2;
  pr_holder = holder;
}

abbrev held : ℕ → ScsiLu
held type = disk (first type ∷ second ∷ []) (some 4096)

abbrev pub env_of : ScsiLu → ScsiCmd → Env
env_of lu cmd = record { cmd = cmd; dev = lu; it_nexus_list = [] }

held_5-IsValid : IsValid (held 5)
unfolding deref
held_5-IsValid = record {
  distinct = omega arith;
  one_per_nexus = ((refl, tt), (tt, tt));
  keyed = omega arith;
  holder = (first 5, refl, refl, refl);
}

held_7-IsValid : IsValid (held 7)
unfolding deref
held_7-IsValid = record {
  distinct = omega arith;
  one_per_nexus = ((refl, tt), (tt, tt));
  keyed = omega arith;
  holder = (first 7, refl, refl, refl);
}

-- WRITE(10), by nexus 2.
abbrev write_10_by_2 : Env
write_10_by_2 = env_of (held 5) (command 2 (0x2a ∷ []) [])

spc_access_check_lem_example : spc_access_check sbc_pr_conflict_bits write_10_by_2 ≡ some false
unfolding deref_holder deref lookup_registration_by_nexus holds
spc_access_check_lem_example = spc_access_check_lem write_10_by_2 (first 5) held_5-IsValid refl

-- UNMAP, by a nexus that is not registered.
abbrev unmap_by_3 : Env
unmap_by_3 = env_of (held 5) (command 3 (0x42 ∷ []) [])

unguarded_writes-pass_example : spc_access_check sbc_pr_conflict_bits unmap_by_3 ≡ some false
unfolding deref_holder deref
unguarded_writes-pass_example =
    unguarded_writes-pass unmap_by_3 (first 5) held_5-IsValid refl refl refl

-- Nexus 1 unregisters; nexus 3 registers.
abbrev unregisters : Env
unregisters = env_of (held 7) (pr_out 1 0 0 11 0)

abbrev registers : Env
registers = env_of (held 7) (pr_out 3 0 0 0 33)

spc_pr_register-IsSafe_example : IsSafe (spc_pr_register (some 16384) registers)
spc_pr_register-IsSafe_example =
    spc_pr_register-IsSafe (some 16384) registers (omega arith) refl held_7-IsValid

-- The second registrant becomes the holder.
unregisters_passes_on :
    spc_pr_register none unregisters
    ≡ some (
      0,
      record unregisters {
        dev = record (disk (record second { pr_type = 7 } ∷ []) (some 8192)) { prgeneration = 3 };
      },
    )
unfolding spc_pr_register check_pr_out_basic_parameter get_unaligned_be32 get_unaligned_be64
    lookup_registration_by_nexus unregister_and_clean clean deref_holder deref unregister
unregisters_passes_on = refl

abbrev reserves : Env
reserves = env_of (disk (first 0 ∷ second ∷ []) none) (pr_out 2 1 5 22 0)

reserves-IsValid : IsValid reserves.dev
reserves-IsValid = record {
  distinct = omega arith;
  one_per_nexus = ((refl, tt), (tt, tt));
  keyed = omega arith;
  holder = tt;
}

-- Nexus 2 preempts key 11, of a reservation for registrants and of one for all registrants.
abbrev preempts : ℕ → Env
preempts type = env_of (held type) (pr_out 2 4 type 22 11)

spc_pr_preempt-IsSafe_example : IsSafe (spc_pr_preempt (preempts 5))
unfolding deref_holder deref
spc_pr_preempt-IsSafe_example =
    spc_pr_preempt-IsSafe (preempts 5) refl refl (λ h e all _ _. ground arith) held_5-IsValid

strands : Strands (preempts 7) second (first 7)
unfolding check_pr_out_basic_parameter get_unaligned_be32 get_unaligned_be64
    lookup_registration_by_nexus deref_holder deref
strands = record {
  well_formed = refl;
  sender = refl;
  own_key = refl;
  holds = refl;
  all_registrants = refl;
  not_holder = omega arith;
  named = refl;
}

spc_pr_preempt-Strands_example :
    (after : Env) × (spc_pr_preempt (preempts 7) ≡ some (Codes.sam_stat_good, after))
    × (deref_holder after.dev ≡ none)
spc_pr_preempt-Strands_example =
    spc_pr_preempt-Strands (preempts 7) second (first 7) strands held_7-IsValid

-- Nexus 1 moves the reservation to the registration with key 22; there is no driver identifier.
abbrev short_move : ScsiCmd
short_move = command 1 (0x5f ∷ 7 ∷ 0 ∷ 0 ∷ 0 ∷ 0 ∷ 0 ∷ 0 ∷ 48 ∷ []) (
    0 ∷ 0 ∷ 0 ∷ 0 ∷ 0 ∷ 0 ∷ 0 ∷ 11 ∷ 0 ∷ 0 ∷ 0 ∷ 0 ∷ 0 ∷ 0 ∷ 0 ∷ 22 ∷ 0 ∷ 0 ∷ 0 ∷ 0 ∷ 0 ∷ 0 ∷ 0 ∷ 24
    ∷ [])

abbrev move_command : ScsiCmd
move_command = record short_move { out_sdb = record (short_move.out_sdb) { length = 48 } }

abbrev moves_env : Env
moves_env = env_of (held 5) move_command

moves : Moves none moves_env (first 5) (first 5) second
unfolding bad_move_parameter get_unaligned_be32 get_unaligned_be64 lookup_registration_by_nexus
    lookup_registration_by_key deref_holder deref names_destination
moves = record {
  well_formed = refl;
  sender = refl;
  held = refl;
  holds = refl;
  own_key = refl;
  nonzero = omega arith;
  found = refl;
  named = refl;
  other = omega arith;
}

spc_pr_register_and_move-holder_example :
    (after : Env) × (spc_pr_register_and_move none moves_env ≡ some (Codes.sam_stat_good, after))
    × (deref_holder after.dev ≡ some (some second))
spc_pr_register_and_move-holder_example =
    spc_pr_register_and_move-holder none moves_env (first 5) (first 5) second moves held_5-IsValid

abbrev moves_nothing : Env
moves_nothing = env_of (disk (first 0 ∷ second ∷ []) none) move_command

-- No reservation is held: the null `pr_holder` is read.
moves_nothing_null : spc_pr_register_and_move none moves_nothing ≡ none
unfolding spc_pr_register_and_move bad_move_parameter get_unaligned_be32
    lookup_registration_by_nexus is_pr_holder deref_holder
moves_nothing_null = refl

-- Nexus 2 reserved the disk for itself; nexus 3 is not registered.
abbrev reserved : Env
reserved =
    env_of (disk (first 0 ∷ record second { pr_type = 5 } ∷ []) (some 8192)) (pr_out 2 1 5 22 0)

reserve_is_good : spc_pr_reserve reserves ≡ some (Codes.sam_stat_good, reserved)
unfolding spc_pr_reserve check_pr_out_basic_parameter get_unaligned_be32
    lookup_registration_by_nexus deref_holder modify
reserve_is_good = refl

spc_pr_reserve-holds_example :
    (h : Registration) × (deref_holder reserved.dev ≡ some (some h))
    × (h.pr_type ≡ cdb_type reserves.cmd)
    × (h.pr_scope ≡ cdb_scope reserves.cmd)
spc_pr_reserve-holds_example =
    spc_pr_reserve-holds reserves reserved reserves-IsValid reserve_is_good

abbrev write_10_by_3 : ScsiCmd
write_10_by_3 = command 3 (0x2a ∷ []) []

spc_pr_reserve-excludes_example :
    spc_access_check sbc_pr_conflict_bits (record reserved { cmd = write_10_by_3 }) ≡ some true
unfolding lookup_registration_by_nexus
spc_pr_reserve-excludes_example =
    spc_pr_reserve-excludes reserves reserved write_10_by_3 reserves-IsValid reserve_is_good refl
      refl
