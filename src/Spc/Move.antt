-- ===== src/Spc/Move.antt =====
-- REGISTER AND MOVE: `spc_pr_register_and_move` of usr/spc.c.
--
-- The driver's `transportid` fills a zeroed buffer with the identifier of a nexus and returns its
-- length; it is an argument of the model, `none` where the driver has none.
use tgt.Base.{
  ℕ, zero, suc, ◌-◌, ◌%◌, Bool, true, not, ◌&&◌, ◌||◌, Option, none, some, Buffer, byte, ltb, ◌==◌,
  bit, if◌then◌else◌, advance, get_unaligned_be32,
}
use tgt.Scsi.Codes
use tgt.Scsi.Lu.{Registration, Env, Outcome, sense, unregister}
use tgt.Spc.Registration.{
  cmd_res_key, cmd_sa_res_key, is_pr_holder, registration_of, lookup_registration_by_key,
}
use tgt.Spc.Register.{finish}

-- !memcmp(p, q, n)
unfoldable pub same_bytes : Buffer → Buffer → ℕ → Bool
same_bytes p q zero = true
same_bytes p q (suc n) = (byte p n == byte q n) && same_bytes p q n

abbrev pub Transportid : Type 0
Transportid = Option (ℕ → ℕ × Buffer)

-- Whether the parameter list names the nexus of the destination.
unfoldable pub names_destination : Transportid → Buffer → ℕ → Registration → Bool
unfolding same_bytes
names_destination none buf len dst = true
names_destination (some id) buf len dst =
    let (idlen, tpid) = id dst.nexus_id in (len == idlen) && same_bytes tpid (advance buf 24) idlen

unfoldable pub moved : Env → Registration → Registration → Env
moved env reg dst = record env {
  dev = record env.dev {
    registration_list =
        if bit (byte env.cmd.out_sdb.buffer 17) 1
        then unregister reg.addr env.dev.registration_list
        else env.dev.registration_list;
    pr_holder = some dst.addr;
  };
}

-- From the tests on the keys on.
unfoldable pub move_from : Transportid → Env → Registration → Outcome
unfolding moved names_destination
move_from transportid env reg =
    let buf = env.cmd.out_sdb.buffer in
    let sa_res_key = cmd_sa_res_key env.cmd in
    if not (reg.key == cmd_res_key env.cmd)
    then some (Codes.sam_stat_reservation_conflict, env)
    else if sa_res_key == 0
    then some (Codes.sam_stat_reservation_conflict, env)
    else elim (lookup_registration_by_key env.dev.registration_list sa_res_key) [
      | none ↦ sense Codes.illegal_request Codes.asc_invalid_field_in_cdb env
      | some dst ↦
          if names_destination transportid buf (get_unaligned_be32 buf 20) dst
          then finish (moved env reg dst)
          else sense Codes.illegal_request Codes.asc_invalid_field_in_cdb env
    ]

-- The checks of the parameter list, in the code's order; `true` is the jump to `sense`.
unfoldable pub bad_move_parameter : Env → Bool
bad_move_parameter env =
    let buf = env.cmd.out_sdb.buffer in
    let param_list_len = get_unaligned_be32 env.cmd.scb 5 in
    let tpid_data_len = get_unaligned_be32 buf 20 in
    ltb param_list_len 24
    || ltb env.cmd.out_sdb.length param_list_len
    || bit (byte buf 17) 0
    || (ltb tpid_data_len 24 || not (tpid_data_len % 4 == 0))
    || ltb (param_list_len - 24) tpid_data_len

unfoldable pub spc_pr_register_and_move : Transportid → Env → Outcome
unfolding move_from
spc_pr_register_and_move transportid env =
    if bad_move_parameter env
    then sense Codes.illegal_request Codes.asc_invalid_field_in_cdb env
    else elim (registration_of env) [
      | none ↦ elim env.dev.pr_holder [
        | some a ↦ some (Codes.sam_stat_reservation_conflict, env)
        | none ↦ sense Codes.illegal_request Codes.asc_invalid_field_in_cdb env
      ]
      | some reg ↦ elim (is_pr_holder env.dev reg) [
        | none ↦ none
        | some holds ↦
            if holds then move_from transportid env reg else some (Codes.sam_stat_good, env)
      ]
    ]
