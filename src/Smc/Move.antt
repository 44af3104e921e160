-- ===== src/Smc/Move.antt =====
-- MOVE MEDIUM: `smc_move_medium` of usr/smc.c.
--
-- The drives are logical units of their own: whether one gives up its medium
-- (`dtd_check_removable`) and whether it loads one (`dtd_load_unload`) are arguments. `past_end` is
-- the byte that the code reads as `s->sides` with `s` past the end of the list.
use tgt.Base.{
  replicate, ℕ, ◌+◌, Bool, not, ◌&&◌, none, some, List, ◌∷◌, ◌++◌, bit, byte, leb, ◌==◌, set,
  get_or, length, c_string, get_unaligned_be16, if◌then◌else◌,
}
use tgt.Scsi.Codes
use tgt.Scsi.Cmd.{ScsiCmd, set_in_resid_by_actual, sense_data_build}
use tgt.Smc.Slots.{
  Slot, element_data_transfer, test_slot_full, set_slot_full, set_slot_empty, new_slot, find_slot,
}

-- The command with the changer's state: `dtype_priv(cmd->dev)`.
pub record Changer : Type 0 where
  pub cmd : ScsiCmd
  pub sense_format : Bool
  pub slots : List Slot
  pub media_home : List ℕ

abbrev pub slot_at : Changer → ℕ → Slot
slot_at c i = get_or c.slots i (new_slot 0 0)

unfoldable pub refuse : ℕ → ℕ → Changer → ℕ × Changer
refuse key asc c = (
  Codes.sam_stat_check_condition,
  record c { cmd = sense_data_build c.sense_format (set_in_resid_by_actual c.cmd 0) key asc },
)

abbrev pub put_slot : Changer → ℕ → Slot → Changer
put_slot c i s = record c { slots = set c.slots i s }

-- The medium's name goes to the destination before it is loaded.
abbrev pub labelled : Slot → Slot → Slot
labelled dest src = record dest { barcode = src.barcode; volume_tag = src.volume_tag }

abbrev pub unlabelled : Slot → Slot
unlabelled dest = record dest { barcode = replicate 11 32; volume_tag = replicate 32 32 }

-- strlen of "%s/%s"
abbrev pub path_length : Changer → Slot → ℕ
path_length c s = length c.media_home + 1 + length (c_string s.barcode)

-- The end of a move that works.
unfoldable pub finish_move : ℕ → ℕ → ℕ → Slot → Changer → ℕ × Changer
finish_move src i j dest c =
    let filled = put_slot c j (set_slot_full dest src) in
    let emptied = put_slot filled i (set_slot_empty (slot_at filled i)) in
    (Codes.sam_stat_good, record emptied { cmd = set_in_resid_by_actual c.cmd 0 })

-- From the first `memcpy` on. `loads tid lun path` is whether the drive takes the medium.
unfoldable pub place : (ℕ → ℕ → List ℕ → Bool) → ℕ → ℕ → ℕ → Changer → ℕ × Changer
unfolding finish_move refuse
place loads src i j c =
    let dest = labelled (slot_at c j) (slot_at c i) in
    if dest.element_type == element_data_transfer
    then if leb 128 (path_length c dest)
      then refuse Codes.illegal_request Codes.asc_internal_tgt_failure
          (put_slot c j (unlabelled dest))
      else if loads dest.drive_tid dest.drive_lun (c.media_home ++ (47 ∷ c_string dest.barcode))
      then finish_move src i j dest c
      else refuse Codes.hardware_error Codes.asc_mechanical_positioning_error (put_slot c j dest)
    else finish_move src i j dest c

-- The test of the source's drive.
unfoldable pub take_from :
    (ℕ → ℕ → Bool) → (ℕ → ℕ → List ℕ → Bool) → ℕ → ℕ → ℕ → Changer → ℕ × Changer
unfolding place
take_from removable loads src i j c =
    if ((slot_at c i).element_type == element_data_transfer)
      && not (removable (slot_at c i).drive_tid (slot_at c i).drive_lun)
    then refuse Codes.illegal_request Codes.asc_medium_removal_prevented c
    else place loads src i j c

unfoldable pub smc_move_medium :
    (ℕ → ℕ → Bool) → (ℕ → ℕ → List ℕ → Bool) → ℕ → Changer → ℕ × Changer
unfolding take_from
smc_move_medium removable loads past_end c =
    let src = get_unaligned_be16 c.cmd.scb 4 in
    let dest = get_unaligned_be16 c.cmd.scb 6 in
    elim (find_slot src c.slots) [
      | none ↦ refuse Codes.illegal_request Codes.asc_invalid_field_in_cdb c
      | some i ↦
          if not (test_slot_full (slot_at c i))
          then refuse Codes.illegal_request Codes.asc_medium_src_empty c
          else elim (find_slot dest c.slots) [
            | none ↦ refuse Codes.illegal_request Codes.asc_invalid_field_in_cdb c
            | some j ↦
                if test_slot_full (slot_at c j)
                then refuse Codes.illegal_request Codes.asc_medium_dest_full c
                else if bit (byte c.cmd.scb 10) 0 && (past_end == 1)
                then refuse Codes.illegal_request Codes.asc_invalid_field_in_cdb c
                else take_from removable loads src i j c
          ]
    ]
