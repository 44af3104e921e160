-- ===== src/Smc/Effects.antt =====
-- What setting a slot of a changer of usr/smc.c full or empty leaves in it.
use tgt.Base.{ℕ, ◌+◌, ◌-◌, ◌%◌, replicate, ◌≡◌, refl, true, false, arith}
use tgt.Smc.Slots.{Slot, test_slot_full, set_slot_full, set_slot_empty}

pub set_slot_full-test : (s : Slot) (src : ℕ) → test_slot_full (set_slot_full s src) ≡ true
unfolding test_slot_full set_slot_full
set_slot_full-test s src = ground arith

pub set_slot_empty-test : (s : Slot) → test_slot_full (set_slot_empty s) ≡ false
unfolding test_slot_full set_slot_empty
set_slot_empty-test s = ground arith

pub set_slot_full-barcode : (s : Slot) (src : ℕ) → (set_slot_full s src).barcode ≡ s.barcode
unfolding set_slot_full
set_slot_full-barcode s src = refl

pub set_slot_empty-full :
    (s : Slot)
    → test_slot_full s ≡ true
    → set_slot_empty s ≡ record s {
      status = s.status - 1;
      last_addr = 0;
      barcode = replicate 11 32;
      volume_tag = replicate 32 32;
    }
unfolding test_slot_full set_slot_empty
set_slot_empty-full s full = let odd : s.status % 2 ≡ 1 = ground (arith, full) in rw odd refl

pub set_slot_full-empty :
    (s : Slot) (src : ℕ)
    → test_slot_full s ≡ false
    → set_slot_full s src ≡ record s { status = s.status + 1; last_addr = src }
unfolding set_slot_full
set_slot_full-empty s src empty = rw empty refl
