-- ===== src/Scsi/Usage.antt =====
-- The usage data of command blocks: `get_scsi_cdb_usage_data` of usr/scsi.c, which says for each
-- operation code which bits of its command block are read. REPORT SUPPORTED OPERATION CODES copies
-- as many bytes of it as the command has.
use tgt.Base.{ℕ, Bool, true, ◌&&◌, Option, none, some, List, [], ◌∷◌, is_one_of, if◌then◌else◌}
use tgt.Scsi.Codes

abbrev allow_medium_removal_usage : List ℕ
allow_medium_removal_usage = 0xff ∷ 0x00 ∷ 0x00 ∷ 0x00 ∷ 0x03 ∷ 0x07 ∷ []

abbrev send_diagnostics_usage : List ℕ
send_diagnostics_usage = 0xff ∷ 0xff ∷ 0x00 ∷ 0xff ∷ 0xff ∷ 0x07 ∷ []

abbrev start_stop_usage : List ℕ
start_stop_usage = 0xff ∷ 0x01 ∷ 0x00 ∷ 0x0f ∷ 0xf7 ∷ 0x07 ∷ []

abbrev mode_sense_usage : List ℕ
mode_sense_usage = 0xff ∷ 0x08 ∷ 0xff ∷ 0xff ∷ 0xff ∷ 0x07 ∷ []

abbrev mode_select_usage : List ℕ
mode_select_usage = 0xff ∷ 0x11 ∷ 0x00 ∷ 0x00 ∷ 0xff ∷ 0x07 ∷ []

abbrev reserve_release_usage : List ℕ
reserve_release_usage = 0xff ∷ 0x00 ∷ 0x00 ∷ 0x00 ∷ 0x00 ∷ 0x07 ∷ []

abbrev inquiry_usage : List ℕ
inquiry_usage = 0xff ∷ 0x01 ∷ 0xff ∷ 0xff ∷ 0xff ∷ 0x07 ∷ []

abbrev read_write_6_usage : List ℕ
read_write_6_usage = 0xff ∷ 0x1f ∷ 0xff ∷ 0xff ∷ 0xff ∷ 0x07 ∷ []

abbrev format_unit_usage : List ℕ
format_unit_usage = 0xff ∷ 0xff ∷ 0x00 ∷ 0x00 ∷ 0x00 ∷ 0x07 ∷ []

abbrev request_sense_usage : List ℕ
request_sense_usage = 0xff ∷ 0x01 ∷ 0x00 ∷ 0x00 ∷ 0xff ∷ 0x07 ∷ []

abbrev test_unit_ready_usage : List ℕ
test_unit_ready_usage = 0xff ∷ 0x00 ∷ 0x00 ∷ 0x00 ∷ 0x00 ∷ 0x07 ∷ []

abbrev persistent_reserve_in_usage : List ℕ
persistent_reserve_in_usage =
    0xff ∷ 0x1f ∷ 0x00 ∷ 0x00 ∷ 0x00 ∷ 0x00 ∷ 0x00 ∷ 0xff ∷ 0xff ∷ 0x07 ∷ []

abbrev persistent_reserve_out_usage : List ℕ
persistent_reserve_out_usage =
    0xff ∷ 0x1f ∷ 0xff ∷ 0x00 ∷ 0x00 ∷ 0xff ∷ 0xff ∷ 0xff ∷ 0xff ∷ 0x07 ∷ []

abbrev mode_sense_10_usage : List ℕ
mode_sense_10_usage = 0xff ∷ 0x18 ∷ 0xff ∷ 0xff ∷ 0x00 ∷ 0x00 ∷ 0x00 ∷ 0xff ∷ 0xff ∷ 0x07 ∷ []

abbrev mode_select_10_usage : List ℕ
mode_select_10_usage = 0xff ∷ 0x11 ∷ 0x00 ∷ 0x00 ∷ 0x00 ∷ 0x00 ∷ 0x00 ∷ 0xff ∷ 0xff ∷ 0x07 ∷ []

abbrev unmap_usage : List ℕ
unmap_usage = 0xff ∷ 0x01 ∷ 0x00 ∷ 0x00 ∷ 0x00 ∷ 0x00 ∷ 0x00 ∷ 0xff ∷ 0xff ∷ 0x07 ∷ []

abbrev write_same_10_usage : List ℕ
write_same_10_usage = 0xff ∷ 0xf8 ∷ 0xff ∷ 0xff ∷ 0xff ∷ 0xff ∷ 0x00 ∷ 0xff ∷ 0xff ∷ 0x07 ∷ []

abbrev pre_fetch_10_usage : List ℕ
pre_fetch_10_usage = 0xff ∷ 0x02 ∷ 0xff ∷ 0xff ∷ 0xff ∷ 0xff ∷ 0x00 ∷ 0xff ∷ 0xff ∷ 0x07 ∷ []

abbrev synchronize_cache_10_usage : List ℕ
synchronize_cache_10_usage =
    0xff ∷ 0x06 ∷ 0xff ∷ 0xff ∷ 0xff ∷ 0xff ∷ 0x00 ∷ 0xff ∷ 0xff ∷ 0x07 ∷ []

abbrev verify_10_usage : List ℕ
verify_10_usage = 0xff ∷ 0xf2 ∷ 0xff ∷ 0xff ∷ 0xff ∷ 0xff ∷ 0x00 ∷ 0xff ∷ 0xff ∷ 0x07 ∷ []

abbrev write_10_usage : List ℕ
write_10_usage = 0xff ∷ 0xfa ∷ 0xff ∷ 0xff ∷ 0xff ∷ 0xff ∷ 0x00 ∷ 0xff ∷ 0xff ∷ 0x07 ∷ []

abbrev read_10_usage : List ℕ
read_10_usage = 0xff ∷ 0xfe ∷ 0xff ∷ 0xff ∷ 0xff ∷ 0xff ∷ 0x00 ∷ 0xff ∷ 0xff ∷ 0x07 ∷ []

abbrev read_capacity_usage : List ℕ
read_capacity_usage = 0xff ∷ 0x00 ∷ 0x00 ∷ 0x00 ∷ 0x00 ∷ 0x00 ∷ 0x00 ∷ 0x00 ∷ 0x00 ∷ 0x07 ∷ []

abbrev verify_12_usage : List ℕ
verify_12_usage =
    0xff ∷ 0xf2 ∷ 0xff ∷ 0xff ∷ 0xff ∷ 0xff ∷ 0xff ∷ 0xff ∷ 0xff ∷ 0xff ∷ 0x00 ∷ 0x07 ∷ []

abbrev write_12_usage : List ℕ
write_12_usage =
    0xff ∷ 0xfa ∷ 0xff ∷ 0xff ∷ 0xff ∷ 0xff ∷ 0xff ∷ 0xff ∷ 0xff ∷ 0xff ∷ 0x00 ∷ 0x07 ∷ []

abbrev read_12_usage : List ℕ
read_12_usage =
    0xff ∷ 0xfe ∷ 0xff ∷ 0xff ∷ 0xff ∷ 0xff ∷ 0xff ∷ 0xff ∷ 0xff ∷ 0xff ∷ 0x00 ∷ 0x07 ∷ []

abbrev rep_sup_opcodes_usage : List ℕ
rep_sup_opcodes_usage =
    0xff ∷ 0x1f ∷ 0x87 ∷ 0xff ∷ 0xff ∷ 0xff ∷ 0xff ∷ 0xff ∷ 0xff ∷ 0xff ∷ 0x00 ∷ 0x07 ∷ []

abbrev report_luns_usage : List ℕ
report_luns_usage =
    0xff ∷ 0x00 ∷ 0xff ∷ 0x00 ∷ 0x00 ∷ 0x00 ∷ 0xff ∷ 0xff ∷ 0xff ∷ 0xff ∷ 0x00 ∷ 0x07 ∷ []

abbrev get_lba_status_usage : List ℕ
get_lba_status_usage =
    0xff ∷ 0x1f ∷ 0xff ∷ 0xff ∷ 0xff ∷ 0xff ∷ 0xff ∷ 0xff ∷ 0xff ∷ 0xff ∷ 0xff ∷ 0xff ∷ 0xff ∷ 0xff
    ∷ 0x00 ∷ 0x07 ∷ []

abbrev read_capacity_16_usage : List ℕ
read_capacity_16_usage =
    0xff ∷ 0x1f ∷ 0x00 ∷ 0x00 ∷ 0x00 ∷ 0x00 ∷ 0x00 ∷ 0x00 ∷ 0x00 ∷ 0x00 ∷ 0xff ∷ 0xff ∷ 0xff ∷ 0xff
    ∷ 0x00 ∷ 0x07 ∷ []

abbrev write_same_16_usage : List ℕ
write_same_16_usage =
    0xff ∷ 0xf8 ∷ 0xff ∷ 0xff ∷ 0xff ∷ 0xff ∷ 0xff ∷ 0xff ∷ 0xff ∷ 0xff ∷ 0xff ∷ 0xff ∷ 0xff ∷ 0xff
    ∷ 0x00 ∷ 0x07 ∷ []

abbrev synchronize_cache_16_usage : List ℕ
synchronize_cache_16_usage =
    0xff ∷ 0x06 ∷ 0xff ∷ 0xff ∷ 0xff ∷ 0xff ∷ 0xff ∷ 0xff ∷ 0xff ∷ 0xff ∷ 0xff ∷ 0xff ∷ 0xff ∷ 0xff
    ∷ 0x00 ∷ 0x07 ∷ []

abbrev pre_fetch_16_usage : List ℕ
pre_fetch_16_usage =
    0xff ∷ 0x02 ∷ 0xff ∷ 0xff ∷ 0xff ∷ 0xff ∷ 0xff ∷ 0xff ∷ 0xff ∷ 0xff ∷ 0xff ∷ 0xff ∷ 0xff ∷ 0xff
    ∷ 0x00 ∷ 0x07 ∷ []

abbrev verify_16_usage : List ℕ
verify_16_usage =
    0xff ∷ 0xf2 ∷ 0xff ∷ 0xff ∷ 0xff ∷ 0xff ∷ 0xff ∷ 0xff ∷ 0xff ∷ 0xff ∷ 0xff ∷ 0xff ∷ 0xff ∷ 0xff
    ∷ 0x00 ∷ 0x07 ∷ []

abbrev orwrite_16_usage : List ℕ
orwrite_16_usage =
    0xff ∷ 0xfa ∷ 0xff ∷ 0xff ∷ 0xff ∷ 0xff ∷ 0xff ∷ 0xff ∷ 0xff ∷ 0xff ∷ 0xff ∷ 0xff ∷ 0xff ∷ 0xff
    ∷ 0x00 ∷ 0x07 ∷ []

abbrev compare_and_write_usage : List ℕ
compare_and_write_usage =
    0xff ∷ 0xfa ∷ 0xff ∷ 0xff ∷ 0xff ∷ 0xff ∷ 0xff ∷ 0xff ∷ 0xff ∷ 0xff ∷ 0x00 ∷ 0x00 ∷ 0x00 ∷ 0xff
    ∷ 0x00 ∷ 0x07 ∷ []

abbrev read_16_usage : List ℕ
read_16_usage =
    0xff ∷ 0xfe ∷ 0xff ∷ 0xff ∷ 0xff ∷ 0xff ∷ 0xff ∷ 0xff ∷ 0xff ∷ 0xff ∷ 0xff ∷ 0xff ∷ 0xff ∷ 0xff
    ∷ 0x00 ∷ 0x07 ∷ []

-- A group of cases of the `switch`: the operation codes, the service actions where a nested
-- `switch` selects by them, and the usage data.
pub record UsageCase : Type 0 where
  pub ops : List ℕ
  pub actions : Option (List ℕ)
  pub usage : List ℕ

abbrev usage_case : List ℕ → List ℕ → UsageCase
usage_case ops usage = record { ops = ops; actions = none; usage = usage }

abbrev service_case : ℕ → List ℕ → List ℕ → UsageCase
service_case op actions usage = record { ops = op ∷ []; actions = some actions; usage = usage }

abbrev pub usage_cases : List UsageCase
usage_cases =
    usage_case (Codes.test_unit_ready ∷ []) test_unit_ready_usage
    ∷ usage_case (Codes.request_sense ∷ []) request_sense_usage
    ∷ usage_case (Codes.format_unit ∷ []) format_unit_usage
    ∷ usage_case (Codes.read_6 ∷ Codes.write_6 ∷ []) read_write_6_usage
    ∷ usage_case (Codes.inquiry ∷ []) inquiry_usage
    ∷ usage_case (Codes.mode_select ∷ []) mode_select_usage
    ∷ usage_case (Codes.release ∷ Codes.reserve ∷ []) reserve_release_usage
    ∷ usage_case (Codes.mode_sense ∷ []) mode_sense_usage
    ∷ usage_case (Codes.start_stop ∷ []) start_stop_usage
    ∷ usage_case (Codes.send_diagnostic ∷ []) send_diagnostics_usage
    ∷ usage_case (Codes.allow_medium_removal ∷ []) allow_medium_removal_usage
    ∷ usage_case (Codes.read_capacity ∷ []) read_capacity_usage
    ∷ usage_case (Codes.read_10 ∷ []) read_10_usage
    ∷ usage_case (Codes.write_10 ∷ []) write_10_usage
    ∷ usage_case (Codes.write_verify ∷ Codes.verify_10 ∷ []) verify_10_usage
    ∷ usage_case (Codes.pre_fetch_10 ∷ []) pre_fetch_10_usage
    ∷ usage_case (Codes.synchronize_cache ∷ []) synchronize_cache_10_usage
    ∷ usage_case (Codes.write_same ∷ []) write_same_10_usage
    ∷ usage_case (Codes.unmap ∷ []) unmap_usage
    ∷ usage_case (Codes.mode_select_10 ∷ []) mode_select_10_usage
    ∷ usage_case (Codes.mode_sense_10 ∷ []) mode_sense_10_usage
    ∷ service_case Codes.persistent_reserve_in
        (Codes.pr_in_read_keys ∷ Codes.pr_in_read_reservation ∷ Codes.pr_in_report_capabilities
          ∷ Codes.pr_in_read_full_status ∷ [])
        persistent_reserve_in_usage
    ∷ service_case Codes.persistent_reserve_out
        (Codes.pr_out_register ∷ Codes.pr_out_reserve ∷ Codes.pr_out_release ∷ Codes.pr_out_clear
          ∷ Codes.pr_out_preempt ∷ Codes.pr_out_preempt_and_abort
          ∷ Codes.pr_out_register_and_ignore_existing_key ∷ Codes.pr_out_register_and_move ∷ [])
        persistent_reserve_out_usage
    ∷ usage_case (Codes.read_16 ∷ []) read_16_usage
    ∷ usage_case (Codes.compare_and_write ∷ []) compare_and_write_usage
    ∷ usage_case (Codes.write_16 ∷ Codes.orwrite_16 ∷ []) orwrite_16_usage
    ∷ usage_case (Codes.write_verify_16 ∷ Codes.verify_16 ∷ []) verify_16_usage
    ∷ usage_case (Codes.pre_fetch_16 ∷ []) pre_fetch_16_usage
    ∷ usage_case (Codes.synchronize_cache_16 ∷ []) synchronize_cache_16_usage
    ∷ usage_case (Codes.write_same_16 ∷ []) write_same_16_usage
    ∷ service_case Codes.service_action_in (Codes.sai_read_capacity_16 ∷ []) read_capacity_16_usage
    ∷ service_case Codes.service_action_in (Codes.sai_get_lba_status ∷ []) get_lba_status_usage
    ∷ usage_case (Codes.report_luns ∷ []) report_luns_usage
    ∷ service_case Codes.maint_protocol_in (Codes.mpi_report_supported_opcodes ∷ [])
        rep_sup_opcodes_usage
    ∷ usage_case (Codes.read_12 ∷ []) read_12_usage
    ∷ usage_case (Codes.verify_12 ∷ Codes.write_verify_12 ∷ []) verify_12_usage
    ∷ usage_case (Codes.write_12 ∷ []) write_12_usage
    ∷ []

-- Whether a nested `switch` has a case for the service action.
unfoldable pub has_action : Option (List ℕ) → ℕ → Bool
has_action none sa = true
has_action (some actions) sa = is_one_of sa actions

unfoldable pub select : ℕ → ℕ → List UsageCase → Option (List ℕ)
unfolding has_action
select op sa [] = none
select op sa (c ∷ cs) =
    let rest = select op sa cs in
    if is_one_of op c.ops && has_action c.actions sa then some c.usage else rest

-- buf[0] = op
unfoldable pub set_op : ℕ → List ℕ → List ℕ
set_op op [] = []
set_op op (b ∷ bs) = op ∷ bs

abbrev pub no_usage : List ℕ
no_usage = 0 ∷ 0 ∷ 0 ∷ 0 ∷ 0 ∷ 0 ∷ 0 ∷ 0 ∷ 0 ∷ 0 ∷ 0 ∷ 0 ∷ 0 ∷ 0 ∷ 0 ∷ 0 ∷ []

unfoldable pub get_scsi_cdb_usage_data : ℕ → ℕ → List ℕ
unfolding select set_op
get_scsi_cdb_usage_data op sa = elim (select op sa usage_cases) [
  | none ↦ no_usage
  | some usage ↦ set_op op usage
]
