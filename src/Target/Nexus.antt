-- ===== src/Target/Nexus.antt =====
-- The nexuses of a target and the unit attention conditions that wait on them (usr/target.c).
--
-- A logical unit is named by its `lun`, which `tgt_device_create` keeps unique in a target. Memory
-- for a unit attention is assumed to be there (`ua_sense_add` does not fail).
use tgt.Base.{
  ℕ, ◌+◌, ◌/◌, ◌%◌, ◌^◌, min, Bool, true, false, ◌&&◌, List, [], ◌∷◌, ◌++◌, map, Buffer, byte,
  zeroed, ltb, ◌==◌, bit, if◌then◌else◌,
}
use tgt.Scsi.Cmd.{ScsiCmd, write_sense, sense_length}
use tgt.Scsi.Codes

pub record UaSense : Type 0 where
  pub ua_sense_buffer : Buffer
  pub ua_sense_len : ℕ

-- `struct it_nexus_lu_info`, without its statistics.
pub record ItlInfo : Type 0 where
  pub lun : ℕ
  pub prevent : ℕ
  pub pending_ua_sense_list : List UaSense

pub record ItNexus : Type 0 where
  pub itn_id : ℕ
  pub ctime : ℕ
  pub host_no : ℕ
  pub itn_itl_info_list : List ItlInfo

-- The entry that `ua_sense_add` allocates. `format` is the logical unit's `sense_format`.
unfoldable pub new_ua_sense : Bool → ℕ → UaSense
unfolding write_sense sense_length
new_ua_sense format asc = record {
  ua_sense_buffer = write_sense format Codes.unit_attention asc zeroed;
  ua_sense_len = sense_length format;
}

unfoldable pub ua_sense_add : Bool → ItlInfo → ℕ → ItlInfo
ua_sense_add format itn_lu asc = record itn_lu {
  pending_ua_sense_list = itn_lu.pending_ua_sense_list ++ (new_ua_sense format asc ∷ []);
}

-- memcpy(dst, src, n)
abbrev pub memcpy : Buffer → Buffer → ℕ → Buffer
memcpy dst src n i = if ltb i n then src i else dst i

-- Reports the oldest condition in the command's sense data, and takes it off the list if `del`.
-- The Boolean is whether there was one (the code's result 0).
unfoldable pub ua_sense_del : ScsiCmd → ItlInfo → Bool → Bool × ScsiCmd × ItlInfo
ua_sense_del cmd itn_lu del = elim itn_lu.pending_ua_sense_list [
  | [] ↦ (false, cmd, itn_lu)
  | uas ∷ rest ↦ (
    true,
    record cmd {
      sense_buffer = memcpy cmd.sense_buffer uas.ua_sense_buffer (min uas.ua_sense_len 252);
      sense_len = min uas.ua_sense_len 252;
    },
    if del then record itn_lu { pending_ua_sense_list = rest } else itn_lu,
  )
]

-- Whether a condition carries the code `asc`, in either format.
unfoldable pub has_asc : UaSense → ℕ → Bool
has_asc uas asc =
    let src = if byte uas.ua_sense_buffer 0 == 0x72 then 2 else 12 in
    (byte uas.ua_sense_buffer src == (asc / 2 ^ 8 % 2 ^ 8))
    && (byte uas.ua_sense_buffer (src + 1) == (asc % 2 ^ 8))

clear_from : List UaSense → ℕ → List UaSense
clear_from [] asc = []
clear_from (uas ∷ rest) asc =
    let kept = clear_from rest asc in if has_asc uas asc then kept else uas ∷ kept

unfoldable pub ua_sense_clear : ItlInfo → ℕ → ItlInfo
unfolding clear_from
ua_sense_clear itn_lu asc = record itn_lu {
  pending_ua_sense_list = clear_from itn_lu.pending_ua_sense_list asc;
}

-- The inner loop of `ua_sense_add_other_it_nexus`: every entry for the logical unit.
add_to_all : Bool → ℕ → ℕ → List ItlInfo → List ItlInfo
add_to_all format lun asc =
    map (λ itn_lu. if itn_lu.lun == lun then ua_sense_add format itn_lu asc else itn_lu)

unfoldable pub ua_sense_add_other_it_nexus : Bool → ℕ → ℕ → ℕ → List ItNexus → List ItNexus
unfolding add_to_all
ua_sense_add_other_it_nexus format itn_id lun asc = map λ itn.
    if itn.itn_id == itn_id
    then itn
    else record itn { itn_itl_info_list = add_to_all format lun asc itn.itn_itl_info_list }

-- The inner loop of `ua_sense_add_it_nexus`: the first entry for the logical unit.
unfoldable pub add_to_first : Bool → ℕ → ℕ → List ItlInfo → List ItlInfo
add_to_first format lun asc [] = []
add_to_first format lun asc (itn_lu ∷ rest) =
    if itn_lu.lun == lun
    then ua_sense_add format itn_lu asc ∷ rest
    else itn_lu ∷ add_to_first format lun asc rest

unfoldable pub ua_sense_add_it_nexus : Bool → ℕ → ℕ → ℕ → List ItNexus → List ItNexus
unfolding add_to_first
ua_sense_add_it_nexus format itn_id lun asc [] = []
ua_sense_add_it_nexus format itn_id lun asc (itn ∷ rest) =
    if itn.itn_id == itn_id
    then record itn { itn_itl_info_list = add_to_first format lun asc itn.itn_itl_info_list } ∷ rest
    else itn ∷ ua_sense_add_it_nexus format itn_id lun asc rest

-- Whether some nexus prevents the removal of the logical unit's medium.
prevents : ℕ → List ItlInfo → Bool
prevents lun [] = false
prevents lun (itn_lu ∷ rest) =
    if (itn_lu.lun == lun) && bit itn_lu.prevent 0 then true else prevents lun rest

unfoldable pub lu_prevent_removal : ℕ → List ItNexus → Bool
unfolding prevents
lu_prevent_removal lun [] = false
lu_prevent_removal lun (itn ∷ rest) =
    if prevents lun itn.itn_itl_info_list then true else lu_prevent_removal lun rest
