-- ===== src/Smc/Branches.antt =====
-- The branches of MOVE MEDIUM of usr/smc.c.
use tgt.Base.{
  ℕ, ◌<◌, ◌≡◌, ◌≢◌, ◌⊎◌, refl, inl, inr, Bool, true, false, not, ◌&&◌, some, List, [], ◌∷◌, ◌++◌,
  arith, bit, byte, leb, ◌==◌, length, c_string, get_unaligned_be16, Bool-cases, Option-cases,
}
use tgt.Scsi.Codes
use tgt.Smc.Slots.{Slot, element_data_transfer, test_slot_full, find_slot}
use tgt.Smc.Move.{
  Changer, slot_at, refuse, labelled, unlabelled, put_slot, path_length, finish_move, place,
  take_from, smc_move_medium,
}

pub find_slot-bound :
    (addr : ℕ) (ss : List Slot) (i : ℕ) → find_slot addr ss ≡ some i → i < length ss
unfolding find_slot
find_slot-bound addr [] i h = absurd (cc)
find_slot-bound addr (s ∷ ss) i h = elim (Option-cases (find_slot addr ss)) [
  | inl e ↦ ground (arith, h, e)
  | inr (k, e) ↦ ground (arith, h, e, find_slot-bound addr ss k e)
]

pub refuse-slots : (key asc : ℕ) (c : Changer) → (refuse key asc c).1.slots ≡ c.slots
unfolding refuse
refuse-slots key asc c = refl

-- How `place` ends: with the move, or refused with the destination still empty.
abbrev pub PlaceEnds : (ℕ → ℕ → List ℕ → Bool) → ℕ → ℕ → ℕ → Changer → Type 0
PlaceEnds loads src i j c =
    (place loads src i j c ≡ finish_move src i j (labelled (slot_at c j) (slot_at c i)) c)
    ⊎ ((key : ℕ) × (asc : ℕ) × (s : Slot) × (test_slot_full s ≡ test_slot_full (slot_at c j))
        × (place loads src i j c ≡ refuse key asc (put_slot c j s)))

pub place-cases :
    (loads : ℕ → ℕ → List ℕ → Bool) (src i j : ℕ) (c : Changer) → PlaceEnds loads src i j c
unfolding place test_slot_full
place-cases loads src i j c = elim (Bool-cases (dest.element_type == element_data_transfer)) [
  | inr e ↦ inl (simp e)
  | inl e ↦ elim (Bool-cases (leb 128 (path_length c dest))) [
    | inl f ↦
        inr (
          Codes.illegal_request,
          Codes.asc_internal_tgt_failure,
          unlabelled dest,
          refl,
          simp (e, f),
        )
    | inr f ↦
        elim (Bool-cases
          (loads dest.drive_tid dest.drive_lun (c.media_home ++ (47 ∷ c_string dest.barcode)))) [
            | inl g ↦ inl (simp (e, f, g))
            | inr g ↦ inr (
              Codes.hardware_error,
              Codes.asc_mechanical_positioning_error,
              dest,
              refl,
              simp (e, f, g),
            )
          ]
  ]
]
  where
    dest : Slot
    dest = labelled (slot_at c j) (slot_at c i)

module _ (removable : ℕ → ℕ → Bool) (loads : ℕ → ℕ → List ℕ → Bool) (past_end : ℕ) where
  -- The command names a full slot and an empty one.
  pub record IsTried (c : Changer) (i j : ℕ) : Type 0 where
    pub src_found : find_slot (get_unaligned_be16 c.cmd.scb 4) c.slots ≡ some i
    pub dest_found : find_slot (get_unaligned_be16 c.cmd.scb 6) c.slots ≡ some j
    pub full : test_slot_full (slot_at c i) ≡ true
    pub empty : test_slot_full (slot_at c j) ≡ false
    pub tried :
        smc_move_medium removable loads past_end c
        ≡ place loads (get_unaligned_be16 c.cmd.scb 4) i j c

  pub distinct : (c : Changer) (i j : ℕ) → IsTried c i j → i ≢ j
  distinct c i j t e = cc

  abbrev pub Ends : Changer → Type 0
  Ends c =
      ((asc : ℕ) × (smc_move_medium removable loads past_end c
          ≡ refuse Codes.illegal_request asc c))
      ⊎ ((i : ℕ) × (j : ℕ) × IsTried c i j)

  pub smc_move_medium-cases : (c : Changer) → Ends c
  unfolding smc_move_medium take_from
  smc_move_medium-cases c =
      elim (Option-cases (find_slot (get_unaligned_be16 c.cmd.scb 4) c.slots)) [
        | inl e ↦ inl (Codes.asc_invalid_field_in_cdb, simp (smc_move_medium, e))
        | inr (i, e) ↦ elim (Bool-cases (test_slot_full (slot_at c i))) [
          | inr empty ↦ inl (Codes.asc_medium_src_empty, simp (smc_move_medium, e, empty))
          | inl full ↦ elim (Option-cases (find_slot (get_unaligned_be16 c.cmd.scb 6) c.slots)) [
            | inl f ↦ inl (Codes.asc_invalid_field_in_cdb, simp (smc_move_medium, e, full, f))
            | inr (j, f) ↦ elim (Bool-cases (test_slot_full (slot_at c j))) [
              | inl taken ↦
                  inl (Codes.asc_medium_dest_full, simp (smc_move_medium, e, full, f, taken))
              | inr empty ↦ elim (Bool-cases (bit (byte c.cmd.scb 10) 0 && (past_end == 1))) [
                | inl invert ↦ inl (
                  Codes.asc_invalid_field_in_cdb,
                  simp (smc_move_medium, e, full, f, empty, invert),
                )
                | inr plain ↦
                    elim (Bool-cases (
                      ((slot_at c i).element_type == element_data_transfer)
                      && not (removable (slot_at c i).drive_tid (slot_at c i).drive_lun))) [
                        | inl stuck ↦ inl (
                          Codes.asc_medium_removal_prevented,
                          simp (smc_move_medium, e, full, f, empty, plain, stuck),
                        )
                        | inr free ↦ inr (
                          i,
                          j,
                          record {
                            src_found = e;
                            dest_found = f;
                            full = full;
                            empty = empty;
                            tried = simp (smc_move_medium, e, full, f, empty, plain, free);
                          },
                        )
                      ]
              ]
            ]
          ]
        ]
      ]
