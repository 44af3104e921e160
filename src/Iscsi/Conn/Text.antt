-- ===== src/Iscsi/Conn/Text.antt =====
-- The text phase: `text_scan_text` and `cmnd_exec_text` of usr/iscsi/iscsid.c, and
-- `target_list_build` of usr/iscsi/target.c.
use tgt.Base.{
  ℕ, zero, suc, ◌+◌, ◌-◌, ◌^◌, Bool, true, not, ◌||◌, Option, none, some, List, [], ◌∷◌, length,
  leb, ltb, ◌==◌, ◌&&◌, ◌%◌, get_or, replicate, if◌then◌else◌, bit, u32, text, same_text,
}
use tgt.Iscsi.Keys.{scan_keys, text_key_add}
use tgt.Iscsi.Param.{val_at, param_max_xmit_dlength}
use tgt.Iscsi.Conn.State.{Conn, Request}
use tgt.Iscsi.Conn.Portal.{Portal}

-- ISCSI_RESERVED_TAG
abbrev pub reserved_tag : ℕ
reserved_tag = 2 ^ 32 - 1

-- What a PDU of at most `n` bytes carries of the text, and what it leaves.
unfoldable pub first_bytes : ℕ → List ℕ → List ℕ
first_bytes zero bs = []
first_bytes (suc n) [] = []
first_bytes (suc n) (b ∷ bs) = b ∷ first_bytes n bs

unfoldable pub bytes_after : ℕ → List ℕ → List ℕ
bytes_after zero bs = bs
bytes_after (suc n) [] = []
bytes_after (suc n) (b ∷ bs) = bytes_after n bs

-- `conn->ttt++` past the reserved tag.
abbrev pub next_tag : ℕ → ℕ
next_tag t = if u32 (t + 1) == reserved_tag then u32 (reserved_tag + 1) else u32 (t + 1)

-- No response: its status, its flags and its data.
abbrev pub clear_header : Conn → Conn
clear_header c = record c {
  status_class = 0;
  status_detail = 0;
  rsp_flags = 0;
  rsp_isid = 0;
  rsp_tsih = 0;
}

abbrev pub count_pdu : Conn → Conn
count_pdu c = record c { stat_sn = u32 (c.stat_sn + 1) }

-- The text is part of `rsp_buffer`: what a write of `bs` from offset `i` on leaves of its bytes, from
-- offset `from` on.
unfoldable pub overwritten : ℕ → List ℕ → ℕ → List ℕ → List ℕ
overwritten i bs from [] = []
overwritten i bs from (t ∷ ts) =
    (if leb i from && ltb from (i + length bs) then get_or bs (from - i) 0 else t)
    ∷ overwritten i bs (from + 1) ts

-- A write to `rsp_buffer`.
abbrev pub write_rsp : ℕ → List ℕ → Conn → Conn
write_rsp i bs c = record c { text_rsp = overwritten i bs c.text_at c.text_rsp }

-- The data of a reject is a copy of the request's header.
abbrev pub cmnd_reject : Request → Conn → Conn
cmnd_reject req c =
    write_rsp 0 req.bhs (
      count_pdu (record (clear_header c) { rsp = record c.rsp { rsp_data = req.bhs }; rsp_at = 0 }))

abbrev pub take_cmd_sn : Request → Conn → Conn
take_cmd_sn req c = record c {
  exp_cmd_sn = if bit req.opcode 6 then req.cmd_sn else u32 (req.cmd_sn + 1);
}

abbrev pub set_text : List ℕ → ℕ → Conn → Conn
set_text bytes tag c = record c { text_rsp = bytes; text_at = 0; ttt = tag }

abbrev pub max_text : Conn → ℕ
max_text c = val_at c.session_param param_max_xmit_dlength

-- The rest of the text, as much as a PDU may carry. The flag is ISCSI_FLAG_CMD_FINAL.
unfoldable pub send_text : Conn → Conn
unfolding first_bytes bytes_after
send_text c =
    let all = leb (length c.text_rsp) (max_text c) in
    count_pdu (record c {
      rsp_flags = if all then 128 else 0;
      ttt = if all then reserved_tag else c.ttt;
      rsp = record c.rsp { rsp_data = first_bytes (max_text c) c.text_rsp };
      text_rsp = bytes_after (max_text c) c.text_rsp;
      rsp_at = c.text_at;
      text_at = c.text_at + length (first_bytes (max_text c) c.text_rsp);
    })

-- `tp->data_padding` of usr/iscsi/iser.c and usr/iscsi/iscsi_tcp.c.
abbrev pub data_padding : Conn → ℕ
data_padding c = if c.tp_rdma then 1 else 4

-- PAD_WORD_LEN is 4.
abbrev pub pad_bytes : ℕ → ℕ → List ℕ
pad_bytes size word = if size % word == 0 then [] else replicate (4 - size % word) 0

-- The padding of a response's data is written to the buffer behind the data, before they are sent.
unfoldable pub tx_init_data : Conn → Conn
unfolding overwritten
tx_init_data c =
    write_rsp (c.rsp_at + length c.rsp.rsp_data)
      (pad_bytes (length c.rsp.rsp_data) (data_padding c)) c

module _ (p : Portal) where
  abbrev pub list_target : List ℕ → ℕ × List ℕ → Conn → Conn
  list_target addr (tid, name) c = record c {
    rsp =
        text_key_add p.grows (text_key_add p.grows c.rsp (text "TargetName") name)
          (text "TargetAddress") addr;
  }

  -- `name` is `none` for all targets.
  abbrev pub is_asked : Option (List ℕ) → List ℕ → Bool
  is_asked none target = true
  is_asked (some name) target = same_text target name

  abbrev pub is_hidden : ℕ → Conn → Bool
  is_hidden tid c = p.ip_acl tid || p.iqn_acl tid c.initiator || p.isns_scn_access tid c.initiator

  unfoldable pub target_list_build : List ℕ → Option (List ℕ) → List (ℕ × List ℕ) → Conn → Conn
  target_list_build addr name [] c = c
  target_list_build addr name ((tid, target) ∷ ts) c = target_list_build addr name ts (
      if not (is_asked name target) || is_hidden tid c then c else list_target addr (tid, target) c)

  abbrev pub asked_name : List ℕ → Option (List ℕ)
  asked_name value = if same_text value (text "All") then none else some value

  -- The address is the same for each key.
  unfoldable pub send_targets : List ℕ → Conn → Conn
  unfolding target_list_build
  send_targets value c = if length value == 0 then c else elim p.portal_name [
    | none ↦ c
    | some addr ↦ target_list_build addr (asked_name value) p.targets c
  ]

  unfoldable pub scan_text_key : List ℕ × List ℕ → Conn → Conn
  unfolding send_targets
  scan_text_key (key, value) c =
      if same_text key (text "SendTargets")
      then send_targets value c
      else record c { rsp = text_key_add p.grows c.rsp key (text "NotUnderstood") }

  unfoldable pub scan_text_keys : List (List ℕ × List ℕ) → Conn → Conn
  unfolding scan_text_key
  scan_text_keys [] c = c
  scan_text_keys (kv ∷ kvs) c = scan_text_keys kvs (scan_text_key kv c)

  unfoldable pub text_scan_text : Request → Conn → Conn
  unfolding scan_text_keys
  text_scan_text req c = scan_text_keys (scan_keys (length req.req_data) req.req_data) c

  -- A new text: it gets a tag where it needs more than one PDU.
  abbrev pub keep_text : Conn → Conn
  keep_text c =
      set_text c.rsp.rsp_data
        (if ltb (max_text c) (length c.rsp.rsp_data) then next_tag c.ttt else reserved_tag) c

  unfoldable pub cmnd_exec_text : Request → Conn → Conn
  unfolding text_scan_text send_text
  cmnd_exec_text req c =
      let c' = take_cmd_sn req (clear_header c) in
      if req.req_ttt == reserved_tag
      then send_text (keep_text (text_scan_text req (record c' { text_rsp = [] })))
      else if (length c'.text_rsp == 0) || not (c'.ttt == req.req_ttt)
      then cmnd_reject req c'
      else send_text c'

abbrev pub cmnd_exec_logout : Request → Conn → Conn
cmnd_exec_logout req c = count_pdu (take_cmd_sn req (record (clear_header c) { rsp_flags = 128 }))
