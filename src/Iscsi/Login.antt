-- ===== src/Iscsi/Login.antt =====
-- The negotiation of a login's operational keys: `text_scan_login` of usr/iscsi/iscsid.c.
use tgt.Base.{
  ℕ, Bool, true, false, none, some, List, [], ◌∷◌, get_or, set, leb, ◌==◌, is_some, if◌then◌else◌,
  text, same_text, length,
}
use tgt.Iscsi.Keys.{Response, scan_keys, text_key_add}
use tgt.Iscsi.Param.{
  KeyState, key_start, key_request, key_done, Param, IscsiKey, minimum_ops, iscsi_key, no_param,
  val_at, put_val, key_at, session_keys, param_index_by_name, param_check_val, param_set_val,
  param_str_to_val, param_val_to_str, digest_none, param_max_recv_dlength, param_max_xmit_dlength,
  param_first_local, param_rdma_extensions, param_hdrdgst_en, param_datadgst_en,
}

-- The connection, as the scan reads and writes it. `failed` is the login status for a protocol
-- error with the state STATE_EXIT.
pub record Negotiation : Type 0 where
  pub session_param : List Param
  pub rsp : Response
  pub is_rdma : Bool
  pub failed : Bool

-- `login_keys`: names that the login has dealt with elsewhere.
abbrev pub login_keys : List IscsiKey
login_keys =
    iscsi_key (text "InitiatorName") 0 0 0 minimum_ops
    ∷ iscsi_key (text "InitiatorAlias") 0 0 0 minimum_ops
    ∷ iscsi_key (text "SessionType") 0 0 0 minimum_ops
    ∷ iscsi_key (text "TargetName") 0 0 0 minimum_ops
    ∷ []

abbrev pub state_at : List Param → ℕ → KeyState
state_at params idx = (get_or params idx no_param).state

abbrev pub settle_state : List Param → ℕ → List Param
settle_state params idx = set params idx (record (get_or params idx no_param) { state = key_done })

abbrev pub is_start : KeyState → Bool
is_start key_start = true
is_start key_request = false
is_start key_done = false

-- The initiator's MaxRecvDataSegmentLength is kept as MaxXmitDataSegmentLength.
abbrev pub xmit_for_recv : ℕ → ℕ
xmit_for_recv idx = if idx == param_max_recv_dlength then param_max_xmit_dlength else idx

abbrev pub note_rdma : ℕ → Negotiation → Negotiation
note_rdma idx c = record c { is_rdma = if idx == param_rdma_extensions then true else c.is_rdma }

-- After the loop: no digests with RDMA, and no RDMA that was not asked for.
unfoldable pub fix_rdma : Negotiation → Negotiation
fix_rdma c =
    if c.failed
    then c
    else if c.is_rdma
    then record c {
      session_param =
          put_val (put_val c.session_param param_hdrdgst_en digest_none) param_datadgst_en
            digest_none;
    }
    else record c { session_param = put_val c.session_param param_rdma_extensions 0 }

-- `strtol` and `print` read and write numbers; `grows` is whether the response's buffer can grow.
module _ (strtol : List ℕ → ℕ) (print : ℕ → List ℕ) (grows : Bool) where
  unfoldable pub answer : List ℕ → List ℕ → Negotiation → Negotiation
  answer key value c = record c { rsp = text_key_add grows c.rsp key value }

  -- From `switch (conn->session_param[idx].state)` on, where `v` is what was settled.
  unfoldable pub conclude : ℕ → List ℕ → ℕ → Negotiation → Negotiation
  unfolding answer
  conclude idx key v c =
      let done = record c { session_param = settle_state c.session_param idx } in
      elim (state_at c.session_param idx) [
        | key_start ↦
            if leb param_first_local idx
            then done
            else answer key (param_val_to_str print (key_at idx).ops v) done
        | key_request ↦ if v == val_at c.session_param idx then done else record c { failed = true }
        | key_done ↦ done
      ]

  -- A value that was read: `param_check_val` and `param_set_val`.
  unfoldable pub take_offer : ℕ → List ℕ → ℕ → Negotiation → Negotiation
  unfolding conclude
  take_offer idx key v c =
      let (checked, bad) = param_check_val (key_at idx) v in
      if bad
      then answer key (text "Reject") c
      else if leb param_first_local idx
      then conclude idx key checked
          (record c { session_param = put_val c.session_param idx checked })
      else let (agreed, params) = param_set_val (key_at idx) c.session_param idx checked in
        conclude idx key agreed (record c { session_param = params })

  unfoldable pub negotiate : ℕ → List ℕ → List ℕ → Negotiation → Negotiation
  unfolding take_offer
  negotiate idx key value c = elim (param_str_to_val strtol (key_at idx).ops value) [
    | none ↦
        if is_start (state_at c.session_param idx)
        then answer key (text "Reject") c
        else record c { failed = true }
    | some v ↦ take_offer idx key v c
  ]

  -- One round of the loop.
  unfoldable pub scan_key : List ℕ → List ℕ → Negotiation → Negotiation
  unfolding negotiate
  scan_key key value c =
      if is_some (param_index_by_name key login_keys)
      then c
      else if same_text key (text "AuthMethod")
      then c
      else elim (param_index_by_name key session_keys) [
        | none ↦ answer key (text "NotUnderstood") c
        | some idx ↦ negotiate (xmit_for_recv idx) key value (note_rdma (xmit_for_recv idx) c)
      ]

  -- The loop, which a failure leaves.
  unfoldable pub scan_all : List (List ℕ × List ℕ) → Negotiation → Negotiation
  unfolding scan_key
  scan_all [] c = c
  scan_all ((key, value) ∷ kvs) c = elim (scan_key key value c).failed [
    | true ↦ scan_key key value c
    | false ↦ scan_all kvs (scan_key key value c)
  ]

  unfoldable pub text_scan_login : List ℕ → Negotiation → Negotiation
  unfolding scan_all fix_rdma
  text_scan_login bytes c =
      fix_rdma
        (scan_all (scan_keys (length bytes) bytes) (record c { is_rdma = false; failed = false }))
