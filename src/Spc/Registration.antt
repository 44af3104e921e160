-- ===== src/Spc/Registration.antt =====
-- Reading the registrations of a logical unit (usr/spc.c): by nexus, by key, and the holder of the
-- reservation; and the checks that the service actions of PERSISTENT RESERVE OUT share.
use tgt.Base.{
  ℕ, ◌/◌, ◌%◌, ◌^◌, Bool, true, not, ◌&&◌, ◌||◌, Option, none, some, List, [], ◌∷◌, byte, ltb, ◌==◌,
  bit, if◌then◌else◌, is_one_of, get_unaligned_be32, get_unaligned_be64,
}
use tgt.Scsi.Cmd.{ScsiCmd, NexusId}
use tgt.Scsi.Codes
use tgt.Scsi.Lu.{Registration, ScsiLu, Env, deref}
use tgt.Target.Nexus.{ItNexus, ua_sense_add_other_it_nexus, ua_sense_add_it_nexus}

-- A reservation of one of the two all-registrants types.
abbrev pub is_allreg : ℕ → Bool
is_allreg t =
    (t == Codes.pr_type_write_exclusive_allreg) || (t == Codes.pr_type_exclusive_access_allreg)

-- The object that `pr_holder` points to, `none` inside for a null pointer.
unfoldable pub deref_holder : ScsiLu → Option (Option Registration)
deref_holder lu = elim lu.pr_holder [
  | none ↦ some none
  | some a ↦ elim (deref lu.registration_list a) [ none ↦ none | some r ↦ some (some r) ]
]

-- `is_pr_holder`, for a holder that is there.
abbrev pub is_holder : Registration → Registration → Bool
is_holder holder reg = if is_allreg holder.pr_type then true else holder.addr == reg.addr

-- `is_pr_holder`, which dereferences `pr_holder` unchecked.
unfoldable pub is_pr_holder : ScsiLu → Registration → Option Bool
is_pr_holder lu reg = elim (deref_holder lu) [
  | none ↦ none
  | some holder ↦ elim holder [ none ↦ none | some h ↦ some (is_holder h reg) ]
]

abbrev pub of_nexus : NexusId → Registration → Bool
of_nexus itn reg = (reg.nexus_id == itn.itn_id) && (reg.ctime == itn.ctime)

unfoldable pub lookup_registration_by_nexus : List Registration → NexusId → Option Registration
lookup_registration_by_nexus [] itn = none
lookup_registration_by_nexus (reg ∷ rest) itn =
    if of_nexus itn reg then some reg else lookup_registration_by_nexus rest itn

-- The registration of the nexus that sent the command.
abbrev pub registration_of : Env → Option Registration
registration_of env = lookup_registration_by_nexus env.dev.registration_list env.cmd.it_nexus

-- The first registration with a key: the loop of `check_registration_key_exists`, and that of
-- `spc_pr_register_and_move`.
unfoldable pub lookup_registration_by_key : List Registration → ℕ → Option Registration
lookup_registration_by_key [] key = none
lookup_registration_by_key (reg ∷ rest) key =
    if reg.key == key then some reg else lookup_registration_by_key rest key

-- `check_pr_out_basic_parameter`; `true` is the code's error result 1.
unfoldable pub check_pr_out_basic_parameter : ScsiCmd → Bool
check_pr_out_basic_parameter cmd =
    if not (get_unaligned_be32 cmd.scb 5 == 24)
    then true
    else if ltb cmd.out_sdb.length 24
    then true
    else bit (byte cmd.out_sdb.buffer 20) 3
      || bit (byte cmd.out_sdb.buffer 20) 2
      || bit (byte cmd.out_sdb.buffer 20) 0

-- The scope and type fields of byte 2 of the command.
abbrev pub cdb_scope : ScsiCmd → ℕ
cdb_scope cmd = byte cmd.scb 2 / 2 ^ 4

abbrev pub cdb_type : ScsiCmd → ℕ
cdb_type cmd = byte cmd.scb 2 % 2 ^ 4

-- `res_key` and `sa_res_key`, the keys in the parameter list.
abbrev pub cmd_res_key : ScsiCmd → ℕ
cmd_res_key cmd = get_unaligned_be64 cmd.out_sdb.buffer 0

abbrev pub cmd_sa_res_key : ScsiCmd → ℕ
cmd_sa_res_key cmd = get_unaligned_be64 cmd.out_sdb.buffer 8

abbrev pub is_pr_type : ℕ → Bool
is_pr_type t = is_one_of t (
    Codes.pr_type_write_exclusive ∷ Codes.pr_type_exclusive_access
    ∷ Codes.pr_type_write_exclusive_regonly ∷ Codes.pr_type_exclusive_access_regonly
    ∷ Codes.pr_type_write_exclusive_allreg ∷ Codes.pr_type_exclusive_access_allreg ∷ [])

-- The loops that announce a change of the reservation, over registrations other than `self`.
unfoldable pub announce_other : Bool → ℕ → ℕ → ℕ → List Registration → List ItNexus → List ItNexus
announce_other format lun asc self [] itns = itns
announce_other format lun asc self (reg ∷ rest) itns = announce_other format lun asc self rest (
    if reg.addr == self then itns else ua_sense_add_other_it_nexus format reg.nexus_id lun asc itns)

unfoldable pub announce : Bool → ℕ → ℕ → ℕ → List Registration → List ItNexus → List ItNexus
announce format lun asc self [] itns = itns
announce format lun asc self (reg ∷ rest) itns =
    announce format lun asc self rest
      (if reg.addr == self then itns else ua_sense_add_it_nexus format reg.nexus_id lun asc itns)
