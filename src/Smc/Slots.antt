-- ===== src/Smc/Slots.antt =====
-- The elements of a medium changer: usr/smc.h and the slot functions of usr/smc.c.
--
-- A slot is named by its place in the list.
use tgt.Base.{
  ℕ, zero, suc, ◌+◌, ◌-◌, ◌%◌, Bool, false, not, ◌&&◌, Option, none, some, List, [], ◌∷◌, ◌^◌, bit,
  ◌==◌, if◌then◌else◌, replicate,
}
use tgt.Scsi.Codes

abbrev pub element_storage : ℕ
element_storage = 2

abbrev pub element_map : ℕ
element_map = 3

abbrev pub element_data_transfer : ℕ
element_data_transfer = 4

pub record Slot : Type 0 where
  pub slot_addr : ℕ
  pub last_addr : ℕ
  pub asc : ℕ
  pub element_type : ℕ
  pub cart_type : ℕ
  pub status : ℕ
  pub sides : ℕ
  pub barcode : List ℕ
  pub drive_tid : ℕ
  pub drive_lun : ℕ
  pub volume_tag : List ℕ

unfoldable pub test_slot_full : Slot → Bool
test_slot_full s = bit s.status 0

-- `set_slot_full`, after the load: status |= 1
unfoldable pub set_slot_full : Slot → ℕ → Slot
unfolding test_slot_full
set_slot_full s src = record s {
  status = if test_slot_full s then s.status else s.status + 1;
  last_addr = src;
}

-- `set_slot_empty`: status &= 0xfe. The result of the drive's unload is not looked at.
unfoldable pub set_slot_empty : Slot → Slot
set_slot_empty s = record s {
  status = s.status - s.status % 2;
  last_addr = 0;
  barcode = replicate 11 32;
  volume_tag = replicate 32 32;
}

-- The slot that `slot_insert` makes.
unfoldable pub new_slot : ℕ → ℕ → Slot
new_slot element_type address = record {
  slot_addr = address % 2 ^ 16;
  last_addr = 0;
  asc = if element_type == element_data_transfer then Codes.asc_initializing_required else 0;
  element_type = element_type % 2 ^ 8;
  cart_type = 0;
  status = 0;
  sides = 1;
  barcode = replicate 11 0;
  drive_tid = 0;
  drive_lun = 0;
  volume_tag = replicate 32 0;
}

-- The test in the loop of `slot_lookup`.
unfoldable pub slot_matches : ℕ → ℕ → Slot → Bool
slot_matches element_type address s =
    if not (element_type == 0) && not (address == 0)
    then (s.slot_addr == address) && (s.element_type == element_type)
    else if not (element_type == 0)
    then s.element_type == element_type
    else if not (address == 0)
    then s.slot_addr == address
    else false

abbrev pub shifted : Option ℕ → Option ℕ
shifted none = none
shifted (some i) = some (suc i)

-- The first slot that matches.
unfoldable pub slot_lookup : ℕ → ℕ → List Slot → Option ℕ
unfolding slot_matches
slot_lookup element_type address [] = none
slot_lookup element_type address (s ∷ ss) =
    if slot_matches element_type address s
    then some 0
    else shifted (slot_lookup element_type address ss)

unfoldable pub slot_remove : ℕ → List Slot → List Slot
slot_remove i [] = []
slot_remove zero (s ∷ ss) = ss
slot_remove (suc i) (s ∷ ss) = s ∷ slot_remove i ss

-- The slot that the loop of `smc_move_medium` finds for an address: the last one with it.
unfoldable pub find_slot : ℕ → List Slot → Option ℕ
find_slot addr [] = none
find_slot addr (s ∷ ss) = elim (find_slot addr ss) [
  | some i ↦ some (suc i)
  | none ↦ if s.slot_addr == addr then some 0 else none
]
