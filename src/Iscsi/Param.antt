-- ===== src/Iscsi/Param.antt =====
-- The values of the text keys: usr/iscsi/param.c, with the numbers of the keys from
-- usr/iscsi/iscsi_if.h. `strtol` and the printing of numbers are the C library's and not modelled
-- here: a number key is given by the number it stands for.
use Prim.Native.Nat.{bit_and, bit_or}
use tgt.Base.{
  ℕ, zero, suc, ◌+◌, Bool, true, false, not, ◌&&◌, ◌||◌, Option, none, some, List, [], ◌∷◌, get_or,
  set, length, ltb, ◌==◌, if◌then◌else◌, bit, text, same_text, same_letters,
}

-- KEY_STATE_START, KEY_STATE_REQUEST and KEY_STATE_DONE.
pub data KeyState : Type 0 where
  key_start key_request key_done : KeyState

pub record Param : Type 0 where
  pub state : KeyState
  pub val : ℕ

-- The tables of functions: minimum_ops and so on.
pub data KeyOps : Type 0 where
  minimum_ops min_or_zero_ops maximum_ops or_ops and_ops digest_ops marker_ops : KeyOps

pub record IscsiKey : Type 0 where
  pub name : List ℕ
  pub def : ℕ
  pub min : ℕ
  pub max : ℕ
  pub ops : KeyOps

abbrev pub digest_none : ℕ
digest_none = 1

abbrev pub digest_crc32c : ℕ
digest_crc32c = 2

abbrev pub digest_all : ℕ
digest_all = 3

abbrev pub iscsi_key : List ℕ → ℕ → ℕ → ℕ → KeyOps → IscsiKey
iscsi_key name def min max ops = record { name = name; def = def; min = min; max = max; ops = ops }

-- enum iscsi_param
abbrev pub param_max_recv_dlength : ℕ
param_max_recv_dlength = 0

abbrev pub param_hdrdgst_en : ℕ
param_hdrdgst_en = 1

abbrev pub param_datadgst_en : ℕ
param_datadgst_en = 2

abbrev pub param_ifmarker_en : ℕ
param_ifmarker_en = 11

abbrev pub param_ofmarker_en : ℕ
param_ofmarker_en = 12

abbrev pub param_rdma_extensions : ℕ
param_rdma_extensions = 18

abbrev pub param_first_local : ℕ
param_first_local = 22

abbrev pub param_max_xmit_dlength : ℕ
param_max_xmit_dlength = 22

-- Shut, so that a proof about a key does not carry the table.
unfoldable pub session_keys : List IscsiKey
session_keys =
    iscsi_key (text "MaxRecvDataSegmentLength") 8192 512 16777215 minimum_ops
    ∷ iscsi_key (text "HeaderDigest") digest_none digest_none digest_all digest_ops
    ∷ iscsi_key (text "DataDigest") digest_none digest_none digest_all digest_ops
    ∷ iscsi_key (text "InitialR2T") 1 0 1 or_ops
    ∷ iscsi_key (text "MaxOutstandingR2T") 1 1 65535 minimum_ops
    ∷ iscsi_key (text "ImmediateData") 1 0 1 and_ops
    ∷ iscsi_key (text "FirstBurstLength") 65536 512 16777215 minimum_ops
    ∷ iscsi_key (text "MaxBurstLength") 262144 512 16777215 minimum_ops
    ∷ iscsi_key (text "DataPDUInOrder") 1 0 1 or_ops
    ∷ iscsi_key (text "DataSequenceInOrder") 1 0 1 or_ops
    ∷ iscsi_key (text "ErrorRecoveryLevel") 0 0 2 minimum_ops
    ∷ iscsi_key (text "IFMarker") 0 0 1 and_ops
    ∷ iscsi_key (text "OFMarker") 0 0 1 and_ops
    ∷ iscsi_key (text "DefaultTime2Wait") 2 0 3600 maximum_ops
    ∷ iscsi_key (text "DefaultTime2Retain") 20 0 3600 minimum_ops
    ∷ iscsi_key (text "OFMarkInt") 2048 1 65535 marker_ops
    ∷ iscsi_key (text "IFMarkInt") 2048 1 65535 marker_ops
    ∷ iscsi_key (text "MaxConnections") 1 1 65535 minimum_ops
    ∷ iscsi_key (text "RDMAExtensions") 0 0 1 and_ops
    ∷ iscsi_key (text "TargetRecvDataSegmentLength") 8192 512 16777215 minimum_ops
    ∷ iscsi_key (text "InitiatorRecvDataSegmentLength") 8192 512 16777215 minimum_ops
    ∷ iscsi_key (text "MaxOutstandingUnexpectedPDUs") 0 2 4294967295 min_or_zero_ops
    ∷ iscsi_key (text "MaxXmitDataSegmentLength") 8192 512 16777215 minimum_ops
    ∷ iscsi_key (text "MaxQueueCmd") 128 1 512 minimum_ops
    ∷ []

-- `param_index_by_name`, for the part of the table from number `i` on; `none` is -ENOENT.
unfoldable pub index_from : ℕ → List ℕ → List IscsiKey → Option ℕ
index_from i name [] = none
index_from i name (k ∷ ks) = if same_letters k.name name then some i else index_from (i + 1) name ks

unfoldable pub param_index_by_name : List ℕ → List IscsiKey → Option ℕ
unfolding index_from
param_index_by_name name keys = index_from 0 name keys

unfoldable pub param_set_defaults : List Param → List IscsiKey → List Param
param_set_defaults (p ∷ ps) (k ∷ ks) = record p { val = k.def } ∷ param_set_defaults ps ks
param_set_defaults ps ks = ps

abbrev pub no_param : Param
no_param = record { state = key_start; val = 0 }

-- param[idx].val
abbrev pub val_at : List Param → ℕ → ℕ
val_at params idx = (get_or params idx no_param).val

-- param[idx].val = val
abbrev pub put_val : List Param → ℕ → ℕ → List Param
put_val params idx v = set params idx (record (get_or params idx no_param) { val = v })

abbrev pub outside : IscsiKey → ℕ → Bool
outside key v = ltb v key.min || ltb key.max v

-- The `check_val` functions: the value afterwards, and whether it is -EINVAL.
unfoldable pub check_as : KeyOps → IscsiKey → ℕ → ℕ × Bool
check_as minimum_ops key v = if outside key v then (key.min, true) else (v, false)
check_as min_or_zero_ops key v =
    if not (v == 0) && outside key v then (key.min, true) else (v, false)
check_as maximum_ops key v = if outside key v then (key.max, true) else (v, false)
check_as or_ops key v = (v, false)
check_as and_ops key v = (v, false)
check_as digest_ops key v = (v, false)
check_as marker_ops key v = (v, false)

unfoldable pub param_check_val : IscsiKey → ℕ → ℕ × Bool
unfolding check_as
param_check_val key v = check_as key.ops key v

abbrev pub is_done : KeyState → Bool
is_done key_done = true
is_done key_start = false
is_done key_request = false

-- The test of `marker_set_val`.
abbrev pub marker_settled : List Param → ℕ → Bool
marker_settled params idx =
    ((idx == param_ofmarker_en) && is_done (get_or params param_ofmarker_en no_param).state)
    || ((idx == param_ifmarker_en) && is_done (get_or params param_ifmarker_en no_param).state)

-- The value that `param_set_val` settles on, from the offer `v` and the target's own value `mine`.
-- Every one of its functions leaves it both in `*val` and in `param[idx].val`.
unfoldable pub settle : KeyOps → Bool → ℕ → ℕ → ℕ
settle minimum_ops settled mine v = if ltb mine v then mine else v
settle min_or_zero_ops settled mine v = if ltb mine v || (v == 0) then mine else v
settle maximum_ops settled mine v = if ltb v mine then mine else v
settle or_ops settled mine v = bit_or v mine
settle and_ops settled mine v = bit_and v mine
settle digest_ops settled mine v = if bit v 1 && bit mine 1 then digest_crc32c else digest_none
settle marker_ops settled mine v = if settled then 0 else 1

unfoldable pub param_set_val : IscsiKey → List Param → ℕ → ℕ → ℕ × List Param
unfolding settle
param_set_val key params idx v =
    let agreed = settle key.ops (marker_settled params idx) (val_at params idx) v in
    (agreed, put_val params idx agreed)

-- `bool_val_to_str` and `bool_str_to_val`; `none` is -EINVAL.
unfoldable pub bool_val_to_str : ℕ → Option (List ℕ)
bool_val_to_str v = if v == 0 then some (text "No") else if v == 1 then some (text "Yes") else none

unfoldable pub bool_str_to_val : List ℕ → Option ℕ
bool_str_to_val str =
    if same_text str (text "Yes")
    then some 1
    else if same_text str (text "No")
    then some 0
    else none

unfoldable pub digest_val_to_str : ℕ → Option (List ℕ)
digest_val_to_str v =
    if bit v 1 then some (text "CRC32C") else if bit v 0 then some (text "None") else none

-- !strncmp(p, word, strlen(word))
abbrev pub starts_with : List ℕ → List ℕ → Bool
starts_with [] p = true
starts_with (c ∷ word) [] = false
starts_with (c ∷ word) (d ∷ p) = (c == d) && starts_with word p

-- The string after the next comma, if there is one.
unfoldable pub after_comma : List ℕ → Option (List ℕ)
after_comma [] = none
after_comma (c ∷ p) = if c == b',' then some p else after_comma p

-- The digest that a word adds; `none` is -EINVAL.
unfoldable pub digest_word : List ℕ → ℕ → Option ℕ
digest_word p v =
    if starts_with (text "None") p
    then some (bit_or v digest_none)
    else if starts_with (text "CRC32C") p
    then some (bit_or v digest_crc32c)
    else none

-- The loop of `digest_str_to_val`, with fuel.
unfoldable pub digest_words : ℕ → List ℕ → ℕ → Option ℕ
unfolding after_comma digest_word
digest_words zero p v = none
digest_words (suc fuel) p v = elim (digest_word p v) [
  | none ↦ none
  | some w ↦ elim (after_comma p) [ none ↦ some w | some q ↦ digest_words fuel q w ]
]

-- Each round passes a comma, so that the length of the string is fuel enough.
unfoldable pub digest_str_to_val : List ℕ → Option ℕ
unfolding digest_words
digest_str_to_val str = digest_words (length str + 1) str digest_none

unfoldable pub marker_val_to_str : ℕ → List ℕ
marker_val_to_str v = if v == 0 then text "Irrelevant" else text "Reject"

-- The entry of the table for a number, and what stands for one that is not there.
abbrev pub no_key : IscsiKey
no_key = iscsi_key [] 0 0 0 marker_ops

abbrev pub key_at : ℕ → IscsiKey
key_at idx = get_or session_keys idx no_key

-- `param_str_to_val`. The marker keys have no such function: the value stays as it was, and
-- `marker_set_val` does not read it.
unfoldable pub param_str_to_val : (List ℕ → ℕ) → KeyOps → List ℕ → Option ℕ
unfolding bool_str_to_val digest_str_to_val
param_str_to_val strtol minimum_ops str = some (strtol str)
param_str_to_val strtol min_or_zero_ops str = some (strtol str)
param_str_to_val strtol maximum_ops str = some (strtol str)
param_str_to_val strtol or_ops str = bool_str_to_val str
param_str_to_val strtol and_ops str = bool_str_to_val str
param_str_to_val strtol digest_ops str = digest_str_to_val str
param_str_to_val strtol marker_ops str = some 0

abbrev pub or_empty : Option (List ℕ) → List ℕ
or_empty none = []
or_empty (some str) = str

-- `param_val_to_str` into a cleared buffer.
unfoldable pub param_val_to_str : (ℕ → List ℕ) → KeyOps → ℕ → List ℕ
unfolding bool_val_to_str digest_val_to_str marker_val_to_str
param_val_to_str print minimum_ops v = print v
param_val_to_str print min_or_zero_ops v = print v
param_val_to_str print maximum_ops v = print v
param_val_to_str print or_ops v = or_empty (bool_val_to_str v)
param_val_to_str print and_ops v = or_empty (bool_val_to_str v)
param_val_to_str print digest_ops v = or_empty (digest_val_to_str v)
param_val_to_str print marker_ops v = marker_val_to_str v
