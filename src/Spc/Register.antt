-- ===== src/Spc/Register.antt =====
-- REGISTER and REGISTER AND IGNORE EXISTING KEY: `spc_pr_register` and `__unregister_and_clean` of
-- usr/spc.c. `alloc` is the result of `zalloc`: the address of a new object, if there is memory.
use tgt.Base.{
  ℕ, ◌+◌, ◌%◌, ◌^◌, Bool, not, ◌||◌, Option, none, some, List, [], ◌∷◌, ◌++◌, byte, ◌==◌,
  if◌then◌else◌, ◌>>=◌, u32,
}
use tgt.Scsi.Codes
use tgt.Scsi.Cmd.{ScsiCmd}
use tgt.Scsi.Lu.{Registration, ScsiLu, Env, Outcome, sense, modify, unregister}
use tgt.Spc.Registration.{
  cmd_res_key, cmd_sa_res_key, is_allreg, is_holder, deref_holder, registration_of,
  check_pr_out_basic_parameter, announce_other,
}

-- prgeneration++, on a uint32_t
abbrev pub next_generation : ScsiLu → ScsiLu
next_generation lu = record lu { prgeneration = u32 (lu.prgeneration + 1) }

-- The holder goes away, and with it the reservation.
unfoldable pub drop_reservation : Env → Registration → List Registration → Env
drop_reservation env reg rest = record env {
  dev = next_generation (record env.dev { registration_list = rest; pr_holder = none });
  it_nexus_list =
      announce_other env.dev.sense_format env.dev.lun Codes.asc_reservations_released reg.addr rest
        env.it_nexus_list;
}

-- An all-registrants reservation goes to the first registration that is left.
unfoldable pub pass_on : Env → Registration → Registration → List Registration → Env
pass_on env holder heir others = record env {
  dev = record env.dev {
    registration_list =
        record heir { pr_scope = holder.pr_scope; pr_type = holder.pr_type } ∷ others;
    pr_holder = some heir.addr;
  };
}

-- `__unregister_and_clean`, where `rest` is the list without `reg`. The code also clears the scope
-- and the type of the holder of a dropped reservation, which is `reg` itself and is freed.
unfoldable pub clean : Env → Registration → Option Registration → List Registration → Env
unfolding drop_reservation pass_on
clean env reg none rest = record env { dev = record env.dev { registration_list = rest } }
clean env reg (some holder) [] =
    if is_holder holder reg
    then drop_reservation env reg []
    else record env { dev = record env.dev { registration_list = [] } }
clean env reg (some holder) (heir ∷ others) =
    if not (is_holder holder reg)
    then record env { dev = record env.dev { registration_list = heir ∷ others } }
    else if not (is_allreg holder.pr_type)
    then drop_reservation env reg (heir ∷ others)
    else pass_on env holder heir others

unfoldable pub unregister_and_clean : Env → Registration → Option Env
unregister_and_clean env reg = elim (deref_holder env.dev) [
  | none ↦ none
  | some holder ↦ some (clean env reg holder (unregister reg.addr env.dev.registration_list))
]

abbrev pub finish : Env → Outcome
finish env = some (Codes.sam_stat_good, record env { dev = next_generation env.dev })

-- The code's tests on a registration that is there.
unfoldable pub change_registration : Env → Registration → Bool → ℕ → ℕ → Outcome
change_registration env reg force res_key sa_res_key =
    if force || (reg.key == res_key)
    then if sa_res_key == 0
      then (unregister_and_clean env reg >>= finish)
      else finish (record env {
        dev = record env.dev {
          registration_list =
              modify reg.addr (λ r. record r { key = sa_res_key }) env.dev.registration_list;
        };
      })
    else some (Codes.sam_stat_reservation_conflict, env)

-- The object that is allocated for a nexus with no registration.
abbrev pub new_registration : ℕ → ℕ → Env → Registration
new_registration a key env = record {
  addr = a;
  key = key;
  nexus_id = env.cmd.cmd_itn_id;
  ctime = env.cmd.it_nexus.ctime;
  pr_scope = 0;
  pr_type = 0;
}

-- After `zalloc`.
unfoldable pub register_new : Option ℕ → Env → ℕ → Outcome
register_new none env sa_res_key =
    sense Codes.illegal_request Codes.asc_insufficent_registration_resources env
register_new (some a) env sa_res_key = finish (record env {
  dev = record env.dev {
    registration_list = env.dev.registration_list ++ new_registration a sa_res_key env ∷ [];
  };
})

-- The code's tests on a nexus that has no registration.
unfoldable pub add_registration : Option ℕ → Env → Bool → ℕ → ℕ → Outcome
unfolding register_new
add_registration alloc env force res_key sa_res_key =
    if force || (res_key == 0)
    then if sa_res_key == 0 then finish env else register_new alloc env sa_res_key
    else some (Codes.sam_stat_reservation_conflict, env)

-- `force`
abbrev pub is_forced : ScsiCmd → Bool
is_forced cmd = byte cmd.scb 1 % 2 ^ 5 == Codes.pr_out_register_and_ignore_existing_key

unfoldable pub spc_pr_register : Option ℕ → Env → Outcome
unfolding change_registration add_registration
spc_pr_register alloc env =
    if check_pr_out_basic_parameter env.cmd
    then sense Codes.illegal_request Codes.asc_invalid_field_in_cdb env
    else elim (registration_of env) [
      | some reg ↦
          change_registration env reg (is_forced env.cmd) (cmd_res_key env.cmd)
            (cmd_sa_res_key env.cmd)
      | none ↦
          add_registration alloc env (is_forced env.cmd) (cmd_res_key env.cmd)
            (cmd_sa_res_key env.cmd)
    ]
