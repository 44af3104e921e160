-- ===== src/Tests/Smc.antt =====
-- A changer whose robot takes a cartridge from a storage slot to a drive.
use tgt.Base.{ℕ, ◌≡◌, refl, Bool, true, List, [], ◌∷◌, some, text, same_text, get_unaligned_be16}
use tgt.Scsi.Codes
use tgt.Smc.Slots.{
  Slot, element_storage, element_data_transfer, new_slot, find_slot, test_slot_full,
}
use tgt.Smc.Move.{Changer, smc_move_medium, finish_move}
use tgt.Smc.Media.{count_media, smc_move_medium-count}
use tgt.Smc.Moved.{IsMoved, smc_move_medium-good}
use tgt.Tests.Spc.{command}

-- Slot 1 holds the cartridge "A001"; 2 is an empty slot and 3 an empty drive.
abbrev shelves : List Slot
shelves =
    record (new_slot element_storage 1) { status = 1; barcode = text "A001" }
    ∷ new_slot element_storage 2
    ∷ record (new_slot element_data_transfer 3) { drive_tid = 4; drive_lun = 1 }
    ∷ []

abbrev moving : ℕ → Changer
moving dest = record {
  cmd = command 1 (0xa5 ∷ 0 ∷ 0 ∷ 0 ∷ 0 ∷ 1 ∷ 0 ∷ dest ∷ 0 ∷ 0 ∷ 0 ∷ 0 ∷ []) [];
  sense_format = true;
  slots = shelves;
  media_home = text "/media";
}

abbrev removable : ℕ → ℕ → Bool
removable tid lun = true

abbrev loads : ℕ → ℕ → List ℕ → Bool
loads tid lun path = same_text path (text "/media/A001")

smc_move_medium-count_example :
    count_media (text "A001") (smc_move_medium removable loads 0 (moving 3)).1.slots ≡ 1
unfolding test_slot_full new_slot
smc_move_medium-count_example = smc_move_medium-count removable loads 0 (text "A001") (moving 3)

loaded : (smc_move_medium removable loads 0 (moving 3)).0 ≡ Codes.sam_stat_good
unfolding smc_move_medium finish_move find_slot new_slot get_unaligned_be16 test_slot_full
loaded = refl

smc_move_medium-good_example :
    (i : ℕ) × (j : ℕ) × (find_slot 1 shelves ≡ some i)
    × (find_slot 3 shelves ≡ some j)
    × IsMoved i j 1 shelves (smc_move_medium removable loads 0 (moving 3)).1.slots
unfolding get_unaligned_be16
smc_move_medium-good_example = smc_move_medium-good removable loads 0 (moving 3) loaded
