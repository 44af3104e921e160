-- ===== src/Smc/Media.antt =====
-- MOVE MEDIUM of usr/smc.c neither loses nor makes a medium.
use tgt.Base.{
  ℕ, zero, suc, ◌+◌, ◌<◌, ◌≡◌, ◌≢◌, refl, ◌∙◌, sym, ap, subst, inl, inr, Bool, true, false, ◌&&◌,
  List, [], ◌∷◌, arith, set, get_or, length, length-set, get_or-set_ne, same_text,
  get_unaligned_be16, if◌then◌else◌,
}
use tgt.Scsi.Codes
use tgt.Smc.Slots.{Slot, test_slot_full, set_slot_full, set_slot_empty, new_slot}
use tgt.Smc.Move.{Changer, slot_at, labelled, put_slot, finish_move, smc_move_medium}
use tgt.Smc.Effects.{set_slot_full-test, set_slot_empty-test, set_slot_full-barcode}
use tgt.Smc.Branches.{find_slot-bound, refuse-slots, place-cases, smc_move_medium-cases, distinct}

-- Whether a slot holds a medium with the barcode `b`, as a number.
abbrev pub media_in : List ℕ → Slot → ℕ
media_in b s = if test_slot_full s && same_text s.barcode b then 1 else 0

-- How many full slots have the barcode `b`.
abbrev pub count_media : List ℕ → List Slot → ℕ
count_media b [] = 0
count_media b (s ∷ ss) = media_in b s + count_media b ss

count_media-set :
    (b : List ℕ) (ss : List Slot) (i : ℕ) (s d : Slot)
    → i < length ss
    → count_media b (set ss i s) + media_in b (get_or ss i d) ≡ count_media b ss + media_in b s
count_media-set b [] i s d h = absurd (omega (arith, h))
count_media-set b (x ∷ ss) zero s d h = omega arith
count_media-set b (x ∷ ss) (suc i) s d h =
    omega (arith, count_media-set b ss i s d (omega (arith, h)))

media_in-empty : (b : List ℕ) (s : Slot) → test_slot_full s ≡ false → media_in b s ≡ 0
media_in-empty b s e = rw e refl

-- Writing to an empty slot a slot that is empty too.
count_media-set_empty :
    (b : List ℕ) (ss : List Slot) (j : ℕ) (s d : Slot)
    → j < length ss
    → test_slot_full (get_or ss j d) ≡ false
    → test_slot_full s ≡ false
    → count_media b (set ss j s) ≡ count_media b ss
count_media-set_empty b ss j s d h e f =
    omega (
      arith,
      count_media-set b ss j s d h,
      media_in-empty b s f,
      media_in-empty b (get_or ss j d) e,
    )

set_slot_full-media_in :
    (b : List ℕ) (dest s : Slot) (src : ℕ)
    → test_slot_full s ≡ true
    → dest.barcode ≡ s.barcode
    → media_in b (set_slot_full dest src) ≡ media_in b s
set_slot_full-media_in b dest s src full named =
    rw (set_slot_full-test dest src, full, set_slot_full-barcode dest src, named) refl

-- The move itself, from the full slot `i` to the empty slot `j`.
finish_move-count :
    (b : List ℕ) (src i j : ℕ) (dest : Slot) (c : Changer)
    → i < length c.slots
    → j < length c.slots
    → i ≢ j
    → test_slot_full (slot_at c i) ≡ true
    → test_slot_full (slot_at c j) ≡ false
    → dest.barcode ≡ (slot_at c i).barcode
    → count_media b (finish_move src i j dest c).1.slots ≡ count_media b c.slots
unfolding finish_move
finish_move-count b src i j dest c hi hj ne full empty named =
    let filled = set c.slots j (set_slot_full dest src) in
    let kept = get_or-set_ne c.slots i j (set_slot_full dest src) (new_slot 0 0) ne in
    let emptied = set_slot_empty (get_or filled i (new_slot 0 0)) in
    omega (
      arith,
      count_media-set b c.slots j (set_slot_full dest src) (new_slot 0 0) hj,
      count_media-set b filled i emptied (new_slot 0 0)
          (subst (λ n. i < n) (sym (length-set c.slots j (set_slot_full dest src))) hi),
      ap (media_in b) kept,
      media_in-empty b emptied (set_slot_empty-test (get_or filled i (new_slot 0 0))),
      media_in-empty b (slot_at c j) empty,
      set_slot_full-media_in b dest (slot_at c i) src full named,
    )

module _ (removable : ℕ → ℕ → Bool) (loads : ℕ → ℕ → List ℕ → Bool) (past_end : ℕ) where
  -- MOVE MEDIUM, whether it moves a medium or fails, leaves for every barcode as many full slots
  -- with it as before.
  pub smc_move_medium-count :
      (b : List ℕ) (c : Changer)
      → count_media b (smc_move_medium removable loads past_end c).1.slots ≡ count_media b c.slots
  smc_move_medium-count b c = elim (smc_move_medium-cases removable loads past_end c) [
    | inl (asc, e) ↦ rw e (ap (count_media b) (refuse-slots Codes.illegal_request asc c))
    | inr (i, j, t) ↦
        let src = get_unaligned_be16 c.cmd.scb 4 in
        let hi = find_slot-bound src c.slots i t.src_found in
        let hj = find_slot-bound _ c.slots j t.dest_found in
        let dest = labelled (slot_at c j) (slot_at c i) in
        rw t.tried (elim (place-cases loads src i j c) [
          | inl e ↦ rw e (
              finish_move-count b src i j dest c hi hj (distinct removable loads past_end c i j t)
                t.full t.empty refl)
          | inr (key, asc, s, same, e) ↦ rw e (
              rw (refuse-slots key asc (put_slot c j s))
                (count_media-set_empty b c.slots j s (new_slot 0 0) hj t.empty (same ∙ t.empty)))
        ])
  ]
