-- ===== src/Smc/Moved.antt =====
-- What MOVE MEDIUM of usr/smc.c does when it works.
use tgt.Base.{
  ℕ, ◌<◌, ◌≡◌, ◌≢◌, ◌∙◌, sym, ap, subst, inl, inr, Bool, true, false, some, List, arith, set,
  get_or, length, length-set, get_or-set_eq, get_or-set_ne, get_unaligned_be16, replicate, ◌+◌, ◌-◌,
}
use tgt.Scsi.Codes
use tgt.Smc.Slots.{Slot, test_slot_full, set_slot_full, set_slot_empty, new_slot, find_slot}
use tgt.Smc.Move.{Changer, slot_at, refuse, labelled, finish_move, smc_move_medium}
use tgt.Smc.Effects.{
  set_slot_full-test, set_slot_empty-test, set_slot_empty-full, set_slot_full-empty,
}
use tgt.Smc.Branches.{find_slot-bound, place-cases, smc_move_medium-cases, distinct}

-- The medium of the full slot `i` has gone to the empty slot `j`.
pub record IsMoved (i j src : ℕ) (before after : List Slot) : Type 0 where
  pub was_full : test_slot_full (get_or before i (new_slot 0 0)) ≡ true
  pub was_empty : test_slot_full (get_or before j (new_slot 0 0)) ≡ false
  pub now_empty : test_slot_full (get_or after i (new_slot 0 0)) ≡ false
  pub now_full : test_slot_full (get_or after j (new_slot 0 0)) ≡ true
  pub source : get_or after i (new_slot 0 0) ≡ record (get_or before i (new_slot 0 0)) {
    status = (get_or before i (new_slot 0 0)).status - 1;
    last_addr = 0;
    barcode = replicate 11 32;
    volume_tag = replicate 32 32;
  }
  pub destination : get_or after j (new_slot 0 0) ≡ record (get_or before j (new_slot 0 0)) {
    status = (get_or before j (new_slot 0 0)).status + 1;
    last_addr = src;
    barcode = (get_or before i (new_slot 0 0)).barcode;
    volume_tag = (get_or before i (new_slot 0 0)).volume_tag;
  }
  pub others :
      (k : ℕ) → k ≢ i → k ≢ j → get_or after k (new_slot 0 0) ≡ get_or before k (new_slot 0 0)

finish_move-IsMoved :
    (src i j : ℕ) (c : Changer)
    → i < length c.slots
    → j < length c.slots
    → i ≢ j
    → test_slot_full (slot_at c i) ≡ true
    → test_slot_full (slot_at c j) ≡ false
    → IsMoved i j src c.slots (finish_move src i j (labelled (slot_at c j) (slot_at c i)) c).1.slots
unfolding finish_move test_slot_full
finish_move-IsMoved src i j c hi hj ne full empty = record {
  was_full = full;
  was_empty = empty;
  now_empty =
      ap test_slot_full (get_or-set_eq filled i emptied (new_slot 0 0) bound)
      ∙ set_slot_empty-test (get_or filled i (new_slot 0 0));
  now_full = ap test_slot_full at_dest ∙ set_slot_full-test dest src;
  source =
      get_or-set_eq filled i emptied (new_slot 0 0) bound
      ∙ ap set_slot_empty (get_or-set_ne c.slots i j (set_slot_full dest src) (new_slot 0 0) ne)
      ∙ set_slot_empty-full (slot_at c i) full;
  destination = at_dest ∙ set_slot_full-empty dest src empty;
  others = λ k ki kj.
      get_or-set_ne filled k i emptied (new_slot 0 0) ki
      ∙ get_or-set_ne c.slots k j (set_slot_full dest src) (new_slot 0 0) kj;
}
  where
    dest : Slot
    dest = labelled (slot_at c j) (slot_at c i)

    filled : List Slot
    filled = set c.slots j (set_slot_full dest src)

    emptied : Slot
    emptied = set_slot_empty (get_or filled i (new_slot 0 0))

    bound : i < length filled
    bound = subst (λ n. i < n) (sym (length-set c.slots j (set_slot_full dest src))) hi

    at_dest : get_or (set filled i emptied) j (new_slot 0 0) ≡ set_slot_full dest src
    at_dest =
        get_or-set_ne filled j i emptied (new_slot 0 0) (λ e. ne (sym e))
        ∙ get_or-set_eq c.slots j (set_slot_full dest src) (new_slot 0 0) hj

module _ (removable : ℕ → ℕ → Bool) (loads : ℕ → ℕ → List ℕ → Bool) (past_end : ℕ) where
  -- When MOVE MEDIUM answers GOOD, its addresses name a full slot and an empty one. The first is
  -- empty now, its barcode and volume tag are blank and its last address is 0; the second is full,
  -- has the barcode and the volume tag that the first had, and its last address is the source.
  -- The other fields of the two and all other slots are as they were.
  pub smc_move_medium-good :
      (c : Changer)
      → (smc_move_medium removable loads past_end c).0 ≡ Codes.sam_stat_good
      → (i : ℕ) × (j : ℕ) × (find_slot (get_unaligned_be16 c.cmd.scb 4) c.slots ≡ some i)
        × (find_slot (get_unaligned_be16 c.cmd.scb 6) c.slots ≡ some j)
        × IsMoved i j
            (get_unaligned_be16 c.cmd.scb 4)
            c.slots
            (smc_move_medium removable loads past_end c).1.slots
  unfolding refuse
  smc_move_medium-good c good = elim (smc_move_medium-cases removable loads past_end c) [
    | inl (asc, e) ↦ absurd (cc)
    | inr (i, j, t) ↦ elim (place-cases loads (get_unaligned_be16 c.cmd.scb 4) i j c) [
      | inr (key, asc, s, same, e) ↦ absurd (ground (arith, good, e, t.tried))
      | inl e ↦ (
        i,
        j,
        t.src_found,
        t.dest_found,
        rw (t.tried, e)
            (finish_move-IsMoved (get_unaligned_be16 c.cmd.scb 4) i j c
              (find_slot-bound _ c.slots i t.src_found) (find_slot-bound _ c.slots j t.dest_found)
              (distinct removable loads past_end c i j t) t.full t.empty),
      )
    ]
  ]
