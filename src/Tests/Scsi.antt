-- ===== src/Tests/Scsi.antt =====
-- Command blocks: the usage data of READ CAPACITY(16).
use tgt.Base.{◌≡◌, ◌≤◌, refl, [], ◌∷◌, length}
use tgt.Scsi.Cdb.{get_scsi_command_size}
use tgt.Scsi.Usage.{get_scsi_cdb_usage_data, select, usage_cases}
use tgt.Scsi.UsageSize.{length-get_scsi_cdb_usage_data, usage_size}

read_capacity_16_usage :
    get_scsi_cdb_usage_data 0x9e 0x10
    ≡ 0x9e ∷ 0x1f ∷ 0 ∷ 0 ∷ 0 ∷ 0 ∷ 0 ∷ 0 ∷ 0 ∷ 0 ∷ 0xff ∷ 0xff ∷ 0xff ∷ 0xff ∷ 0 ∷ 7 ∷ []
unfolding get_scsi_cdb_usage_data
read_capacity_16_usage = refl

length-get_scsi_cdb_usage_data_example :
    (length (get_scsi_cdb_usage_data 0x9e 0x10) ≡ usage_size (select 0x9e 0x10 usage_cases) 0x9e)
    × (get_scsi_command_size 0x9e ≤ length (get_scsi_cdb_usage_data 0x9e 0x10))
length-get_scsi_cdb_usage_data_example = length-get_scsi_cdb_usage_data 0x9e 0x10
