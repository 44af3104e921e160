-- ===== src/Scsi/Codes.antt =====
-- The constants of usr/scsi.h that the modelled code uses: operation codes, service actions,
-- statuses, sense keys, additional sense codes and the codes of persistent reservations.
use Prim.Native.Nat.{ℕ}

abbrev pub test_unit_ready : ℕ
test_unit_ready = 0x00

abbrev pub request_sense : ℕ
request_sense = 0x03

abbrev pub format_unit : ℕ
format_unit = 0x04

abbrev pub read_6 : ℕ
read_6 = 0x08

abbrev pub write_6 : ℕ
write_6 = 0x0a

abbrev pub inquiry : ℕ
inquiry = 0x12

abbrev pub mode_select : ℕ
mode_select = 0x15

abbrev pub reserve : ℕ
reserve = 0x16

abbrev pub release : ℕ
release = 0x17

abbrev pub mode_sense : ℕ
mode_sense = 0x1a

abbrev pub start_stop : ℕ
start_stop = 0x1b

abbrev pub send_diagnostic : ℕ
send_diagnostic = 0x1d

abbrev pub allow_medium_removal : ℕ
allow_medium_removal = 0x1e

abbrev pub read_capacity : ℕ
read_capacity = 0x25

abbrev pub read_10 : ℕ
read_10 = 0x28

abbrev pub write_10 : ℕ
write_10 = 0x2a

abbrev pub write_verify : ℕ
write_verify = 0x2e

abbrev pub verify_10 : ℕ
verify_10 = 0x2f

abbrev pub pre_fetch_10 : ℕ
pre_fetch_10 = 0x34

abbrev pub synchronize_cache : ℕ
synchronize_cache = 0x35

abbrev pub write_same : ℕ
write_same = 0x41

abbrev pub unmap : ℕ
unmap = 0x42

abbrev pub mode_select_10 : ℕ
mode_select_10 = 0x55

abbrev pub mode_sense_10 : ℕ
mode_sense_10 = 0x5a

abbrev pub persistent_reserve_in : ℕ
persistent_reserve_in = 0x5e

abbrev pub persistent_reserve_out : ℕ
persistent_reserve_out = 0x5f

abbrev pub read_16 : ℕ
read_16 = 0x88

abbrev pub compare_and_write : ℕ
compare_and_write = 0x89

abbrev pub write_16 : ℕ
write_16 = 0x8a

abbrev pub orwrite_16 : ℕ
orwrite_16 = 0x8b

abbrev pub write_verify_16 : ℕ
write_verify_16 = 0x8e

abbrev pub verify_16 : ℕ
verify_16 = 0x8f

abbrev pub pre_fetch_16 : ℕ
pre_fetch_16 = 0x90

abbrev pub synchronize_cache_16 : ℕ
synchronize_cache_16 = 0x91

abbrev pub write_same_16 : ℕ
write_same_16 = 0x93

abbrev pub service_action_in : ℕ
service_action_in = 0x9e

abbrev pub sai_read_capacity_16 : ℕ
sai_read_capacity_16 = 0x10

abbrev pub sai_get_lba_status : ℕ
sai_get_lba_status = 0x12

abbrev pub report_luns : ℕ
report_luns = 0xa0

abbrev pub maint_protocol_in : ℕ
maint_protocol_in = 0xa3

abbrev pub mpi_report_supported_opcodes : ℕ
mpi_report_supported_opcodes = 0x0c

abbrev pub read_12 : ℕ
read_12 = 0xa8

abbrev pub write_12 : ℕ
write_12 = 0xaa

abbrev pub write_verify_12 : ℕ
write_verify_12 = 0xae

abbrev pub verify_12 : ℕ
verify_12 = 0xaf

abbrev pub sam_stat_good : ℕ
sam_stat_good = 0x00

abbrev pub sam_stat_check_condition : ℕ
sam_stat_check_condition = 0x02

abbrev pub sam_stat_reservation_conflict : ℕ
sam_stat_reservation_conflict = 0x18

abbrev pub no_sense : ℕ
no_sense = 0x00

abbrev pub not_ready : ℕ
not_ready = 0x02

abbrev pub hardware_error : ℕ
hardware_error = 0x04

abbrev pub illegal_request : ℕ
illegal_request = 0x05

abbrev pub unit_attention : ℕ
unit_attention = 0x06

abbrev pub data_protect : ℕ
data_protect = 0x07

abbrev pub msg_simple_tag : ℕ
msg_simple_tag = 0x20

abbrev pub msg_head_tag : ℕ
msg_head_tag = 0x21

abbrev pub msg_ordered_tag : ℕ
msg_ordered_tag = 0x22

abbrev pub task_aborted : ℕ
task_aborted = 0x20

abbrev pub abort_task : ℕ
abort_task = 0x0d

abbrev pub no_additional_sense : ℕ
no_additional_sense = 0x0000

abbrev pub asc_medium_not_present : ℕ
asc_medium_not_present = 0x3a00

abbrev pub asc_internal_tgt_failure : ℕ
asc_internal_tgt_failure = 0x4400

abbrev pub asc_parameter_list_length_err : ℕ
asc_parameter_list_length_err = 0x1a00

abbrev pub asc_invalid_op_code : ℕ
asc_invalid_op_code = 0x2000

abbrev pub asc_lba_out_of_range : ℕ
asc_lba_out_of_range = 0x2100

abbrev pub asc_invalid_field_in_cdb : ℕ
asc_invalid_field_in_cdb = 0x2400

abbrev pub asc_lun_not_supported : ℕ
asc_lun_not_supported = 0x2500

abbrev pub asc_invalid_release_of_persistent_reservation : ℕ
asc_invalid_release_of_persistent_reservation = 0x2604

abbrev pub asc_insufficent_registration_resources : ℕ
asc_insufficent_registration_resources = 0x5504

abbrev pub asc_poweron_reset : ℕ
asc_poweron_reset = 0x2900

abbrev pub asc_reservations_preempted : ℕ
asc_reservations_preempted = 0x2a03

abbrev pub asc_reservations_released : ℕ
asc_reservations_released = 0x2a04

abbrev pub asc_reported_luns_data_has_changed : ℕ
asc_reported_luns_data_has_changed = 0x3f0e

abbrev pub asc_write_protect : ℕ
asc_write_protect = 0x2700

abbrev pub pr_in_read_keys : ℕ
pr_in_read_keys = 0x00

abbrev pub pr_in_read_reservation : ℕ
pr_in_read_reservation = 0x01

abbrev pub pr_in_report_capabilities : ℕ
pr_in_report_capabilities = 0x02

abbrev pub pr_in_read_full_status : ℕ
pr_in_read_full_status = 0x03

abbrev pub pr_out_register : ℕ
pr_out_register = 0x00

abbrev pub pr_out_reserve : ℕ
pr_out_reserve = 0x01

abbrev pub pr_out_release : ℕ
pr_out_release = 0x02

abbrev pub pr_out_clear : ℕ
pr_out_clear = 0x03

abbrev pub pr_out_preempt : ℕ
pr_out_preempt = 0x04

abbrev pub pr_out_preempt_and_abort : ℕ
pr_out_preempt_and_abort = 0x05

abbrev pub pr_out_register_and_ignore_existing_key : ℕ
pr_out_register_and_ignore_existing_key = 0x06

abbrev pub pr_out_register_and_move : ℕ
pr_out_register_and_move = 0x07

abbrev pub pr_lu_scope : ℕ
pr_lu_scope = 0x00

abbrev pub pr_type_write_exclusive : ℕ
pr_type_write_exclusive = 0x01

abbrev pub pr_type_exclusive_access : ℕ
pr_type_exclusive_access = 0x03

abbrev pub pr_type_write_exclusive_regonly : ℕ
pr_type_write_exclusive_regonly = 0x05

abbrev pub pr_type_exclusive_access_regonly : ℕ
pr_type_exclusive_access_regonly = 0x06

abbrev pub pr_type_write_exclusive_allreg : ℕ
pr_type_write_exclusive_allreg = 0x07

abbrev pub pr_type_exclusive_access_allreg : ℕ
pr_type_exclusive_access_allreg = 0x08

abbrev pub asc_medium_src_empty : ℕ
asc_medium_src_empty = 0x3b0e

abbrev pub asc_medium_dest_full : ℕ
asc_medium_dest_full = 0x3b0d

abbrev pub asc_medium_removal_prevented : ℕ
asc_medium_removal_prevented = 0x5302

abbrev pub asc_mechanical_positioning_error : ℕ
asc_mechanical_positioning_error = 0x1501

abbrev pub asc_initializing_required : ℕ
asc_initializing_required = 0x0402
