-- ===== src/Spc/Preempt.antt =====
-- CLEAR and PREEMPT: `spc_pr_clear` and `spc_pr_preempt` of usr/spc.c.
use tgt.Base.{
  ℕ, Bool, true, false, not, ◌&&◌, ◌||◌, Option, none, some, List, [], ◌∷◌, ◌==◌, if◌then◌else◌,
}
use tgt.Scsi.Codes
use tgt.Scsi.Lu.{Registration, ScsiLu, Env, Outcome, sense}
use tgt.Target.Nexus.{ItNexus, ua_sense_add_it_nexus}
use tgt.Spc.Registration.{
  cmd_res_key, cmd_sa_res_key, is_allreg, cdb_scope, cdb_type, deref_holder, registration_of,
  lookup_registration_by_key, check_pr_out_basic_parameter, announce,
}
use tgt.Spc.Register.{finish}
use tgt.Spc.Reserve.{mark}

-- Every registration is freed, the holder's too.
unfoldable pub cleared : Env → Registration → Env
cleared env reg = record env {
  dev = record env.dev { registration_list = []; pr_holder = none };
  it_nexus_list =
      announce env.dev.sense_format env.dev.lun Codes.asc_reservations_preempted reg.addr
        env.dev.registration_list env.it_nexus_list;
}

unfoldable pub spc_pr_clear : Env → Outcome
unfolding cleared
spc_pr_clear env =
    if check_pr_out_basic_parameter env.cmd
    then sense Codes.illegal_request Codes.asc_invalid_field_in_cdb env
    else elim (registration_of env) [
      | none ↦ some (Codes.sam_stat_reservation_conflict, env)
      | some reg ↦
          if not (reg.key == cmd_res_key env.cmd)
          then some (Codes.sam_stat_reservation_conflict, env)
          else elim (deref_holder env.dev) [ none ↦ none | some holder ↦ finish (cleared env reg) ]
    ]

-- What the test on the holder decides: whether `reg` takes the reservation, and the two flags.
pub record Takeover : Type 0 where
  pub takes : Bool
  pub res_released : Bool
  pub remove_all_reg : Bool

abbrev pub nothing_taken : Takeover
nothing_taken = record { takes = false; res_released = false; remove_all_reg = false }

abbrev pub differs : ScsiLu → Registration → ℕ → ℕ → Bool
differs lu holder type scope = not (type == holder.pr_type) || not (scope == holder.pr_scope)

-- `none` is the jump to `sense`.
unfoldable pub takeover : ScsiLu → Option Registration → ℕ → ℕ → ℕ → Option Takeover
takeover lu none type scope sa_res_key = some nothing_taken
takeover lu (some holder) type scope sa_res_key =
    if is_allreg holder.pr_type
    then if sa_res_key == 0
      then some (record {
        takes = true;
        res_released = differs lu holder type scope;
        remove_all_reg = true;
      })
      else some nothing_taken
    else if holder.key == sa_res_key
    then some (record {
      takes = true;
      res_released = differs lu holder type scope;
      remove_all_reg = false;
    })
    else if sa_res_key == 0
    then none
    else some nothing_taken

-- The loop over the siblings: which registrations it leaves on the list, ...
unfoldable pub keep_after : Bool → ℕ → ℕ → List Registration → List Registration
keep_after all sa_res_key self [] = []
keep_after all sa_res_key self (r ∷ rest) =
    let kept = keep_after all sa_res_key self rest in
    if r.addr == self then r ∷ kept else if (r.key == sa_res_key) || all then kept else r ∷ kept

-- ... and which unit attentions it adds.
unfoldable pub notify_after :
    Takeover → Bool → ℕ → ℕ → ℕ → List Registration → List ItNexus → List ItNexus
notify_after t format lun sa_res_key self [] itns = itns
notify_after t format lun sa_res_key self (r ∷ rest) itns =
    notify_after t format lun sa_res_key self rest (
      if r.addr == self
      then itns
      else if (r.key == sa_res_key) || t.remove_all_reg
      then ua_sense_add_it_nexus format r.nexus_id lun Codes.asc_reservations_preempted itns
      else if t.res_released
      then ua_sense_add_it_nexus format r.nexus_id lun Codes.asc_reservations_released itns
      else itns)

abbrev pub taken : Env → Registration → Takeover → List Registration
taken env reg t =
    if t.takes
    then mark reg (cdb_scope env.cmd) (cdb_type env.cmd) env.dev.registration_list
    else env.dev.registration_list

unfoldable pub preempted : Env → Registration → ℕ → Takeover → Env
preempted env reg sa_res_key t = record env {
  dev = record env.dev {
    registration_list = keep_after t.remove_all_reg sa_res_key reg.addr (taken env reg t);
    pr_holder = if t.takes then some reg.addr else env.dev.pr_holder;
  };
  it_nexus_list =
      notify_after t env.dev.sense_format env.dev.lun sa_res_key reg.addr env.dev.registration_list
        env.it_nexus_list;
}

-- From the test on `sa_res_key` on.
unfoldable pub preempt_as : Env → Registration → ℕ → Outcome
unfolding preempted takeover
preempt_as env reg sa_res_key = elim (deref_holder env.dev) [
  | none ↦ none
  | some holder ↦ elim (takeover env.dev holder (cdb_type env.cmd) (cdb_scope env.cmd) sa_res_key) [
    | none ↦ sense Codes.illegal_request Codes.asc_invalid_field_in_cdb env
    | some t ↦ finish (preempted env reg sa_res_key t)
  ]
]

-- `check_registration_key_exists`
abbrev pub key_missing : List Registration → ℕ → Bool
key_missing regs key = elim (lookup_registration_by_key regs key) [ none ↦ true | some r ↦ false ]

abbrev pub no_such_key : Env → Bool
no_such_key env =
    not (cmd_sa_res_key env.cmd == 0)
    && key_missing env.dev.registration_list (cmd_sa_res_key env.cmd)

unfoldable pub spc_pr_preempt : Env → Outcome
unfolding preempt_as
spc_pr_preempt env =
    if check_pr_out_basic_parameter env.cmd
    then sense Codes.illegal_request Codes.asc_invalid_field_in_cdb env
    else elim (registration_of env) [
      | none ↦ some (Codes.sam_stat_reservation_conflict, env)
      | some reg ↦
          if not (reg.key == cmd_res_key env.cmd)
          then some (Codes.sam_stat_reservation_conflict, env)
          else if no_such_key env
          then some (Codes.sam_stat_reservation_conflict, env)
          else preempt_as env reg (cmd_sa_res_key env.cmd)
    ]
