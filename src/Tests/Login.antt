-- ===== src/Tests/Login.antt =====
-- A login with CHAP, and a text of more than one PDU.
use tgt.Base.{
  replicate, get_or, zero, suc, ◌^◌, ◌-◌, arith, ℕ, ◌≡◌, refl, true, false, none, some, List, [],
  ◌∷◌, ◌==◌, text, same_text, if◌then◌else◌,
}
use tgt.Iscsi.Keys.{scan_keys, text_key_add}
use tgt.Iscsi.KeysRoundTrip.{wire}
use tgt.Iscsi.Param.{Param, key_start, no_param}
use tgt.Iscsi.Security.{auth_unknown, auth_chap}
use tgt.Iscsi.Chap.{chap_decode_string, chap_check_encoding_format}
use tgt.Iscsi.Conn.State
use tgt.Iscsi.Conn.State.{
  Conn, Request, SessionInfo, auth_state_start, auth_state_challenge, digest_md5, session_normal,
}
use tgt.Iscsi.Conn.Portal.{Portal, Chance, Redirection}
use tgt.Iscsi.Conn.Find.{text_key_find}
use tgt.Iscsi.Conn.AuthChap.{decoded_buffer}
use tgt.Iscsi.Conn.Answers.{Answers}
use tgt.Iscsi.Conn.Transit.{is_open}
use tgt.Iscsi.Conn.Text.{cmnd_exec_text, text_scan_text, send_text, tx_init_data}
use tgt.Iscsi.Conn.Execute.{rx_end, tx_end}
use tgt.Iscsi.Conn.Attempts.{arrives, receives, Attempts-closed}
use tgt.Iscsi.Conn.TextPadded.{cmnd_exec_text-overwritten}
use tgt.Iscsi.Conn.TextWhole.{ask_on, ask_all, whole_text, cmnd_exec_text-whole}

-- A target with one account, and digests of 16 bytes that stand for real ones.
abbrev pub portal : Portal
portal = record {
  find_target = λ name.
      if same_text name (text "t")
      then some
          (record { target_tid = 1; rdma = false; target_param = no_param ∷ []; is_ready = true })
      else none;
  targets = (1, text "t") ∷ [];
  portal_name = some (text "h:3260,1");
  redirected = λ tid. Redirection.stays;
  ip_acl = λ tid. false;
  iqn_acl = λ tid name. false;
  isns_scn_access = λ tid name. false;
  available = λ tid. tid == 1;
  incoming = λ tid name. if same_text name (text "u") then some (text "pw") else none;
  outgoing = λ tid. none;
  find_session = λ tid name isid. none;
  login_complete = λ c. true;
  take_fd = λ c. true;
  session_create = λ c. none;
  calc_digest = λ alg id secret challenge.
      161 ∷ 178 ∷ 0 ∷ 0 ∷ 0 ∷ 0 ∷ 0 ∷ 0 ∷ 0 ∷ 0 ∷ 0 ∷ 0 ∷ 0 ∷ 0 ∷ 0 ∷ id ∷ [];
  strtol = λ s. 0;
  decimal = λ s. 0;
  print = λ n. text "1";
  grows = true;
}

abbrev pub chance : Chance
chance = record { last_id = 0; random = 1 ∷ 2 ∷ 3 ∷ []; stale = []; allocates = true }

abbrev pub arrived : Conn
arrived = record {
  state = State.state_free;
  tid = 0;
  cid = 0;
  isid = 0;
  tsih = 0;
  initiator = [];
  initiator_alias = none;
  session_type = session_normal;
  auth_method = auth_unknown;
  auth_state = auth_state_start;
  chap = record { digest_alg = none; id = 0; challenge = [] };
  session_param = no_param ∷ [];
  rsp = record {
    rsp_data = [];
    rsp_buffer_size = 8192;
    is_full = false;
    is_text = false;
    max_xmit = 8192;
  };
  tp_rdma = false;
  session = none;
  status_class = 0;
  status_detail = 0;
  rsp_flags = 0;
  rsp_isid = 0;
  rsp_tsih = 0;
  stat_sn = 0;
  exp_cmd_sn = 0;
  max_cmd_sn = 0;
  ttt = 0;
  rsp_at = 0;
  text_at = 0;
  text_rsp = [];
}

abbrev pub login : ℕ → List (List ℕ × List ℕ) → Request
login flags kvs = record {
  opcode = 67;
  min_version = 0;
  flags = flags;
  req_cid = 0;
  req_isid = 1;
  req_tsih = 0;
  cmd_sn = 1;
  req_ttt = 0;
  bhs = replicate 48 0;
  req_data = wire kvs;
}

-- The first request asks for the operational stage at once.
abbrev pub hasty : Request
hasty = login 135 (
    (text "InitiatorName", text "i")
    ∷ (text "TargetName", text "t")
    ∷ (text "AuthMethod", text "None")
    ∷ [])

no_challenge : {w : Chance} {req : Request} → ¬ Answers portal w req arrived
no_challenge a = absurd (cc (a.chosen))

Attempts-closed_example : is_open (rx_end portal chance hasty arrived).state ≡ false
unfolding rx_end text_key_find
Attempts-closed_example =
    Attempts-closed portal (receives chance hasty (arrives refl refl) no_challenge) refl

-- A connection that was sent a challenge, and the right answer to it.
abbrev challenged : Conn
challenged = record arrived {
  state = State.state_security_auth;
  tid = 1;
  auth_method = auth_chap;
  auth_state = auth_state_challenge;
  chap = record { digest_alg = some digest_md5; id = 1; challenge = 1 ∷ 2 ∷ 3 ∷ [] };
}

abbrev right : Request
right =
    login 129
      ((text "CHAP_N", text "u") ∷ (text "CHAP_R", text "0xa1b20000000000000000000000000001") ∷ [])

-- The request asks for the operational stage, and the response is sent.
admitted : (tx_end portal (rx_end portal chance right challenged)).state ≡ State.state_login
unfolding tx_end rx_end text_key_find chap_check_encoding_format chap_decode_string decoded_buffer
admitted = refl

-- 16 bytes in a PDU.
abbrev narrow : ℕ → List Param
narrow zero = record { state = key_start; val = 16 } ∷ []
narrow (suc n) = no_param ∷ narrow n

abbrev listing : Request
listing = record (login 128 ((text "SendTargets", text "All") ∷ [])) {
  opcode = 68;
  req_ttt = 2 ^ 32 - 1;
}

abbrev discovering : Conn
discovering = record arrived {
  state = State.state_full;
  session_param = narrow 22;
  rsp = record arrived.rsp { is_full = true; is_text = true; max_xmit = 16 };
}

cmnd_exec_text-whole_example :
    ask_all portal 2 listing (cmnd_exec_text portal listing discovering)
    ≡ ((whole_text portal listing discovering).rsp.rsp_data, true)
unfolding text_scan_text scan_keys text_key_add
cmnd_exec_text-whole_example =
    cmnd_exec_text-whole portal 2 listing discovering refl (omega arith) refl (omega arith)

listed :
    (whole_text portal listing discovering).rsp.rsp_data
    ≡ wire ((text "TargetName", text "t") ∷ (text "TargetAddress", text "h:3260,1") ∷ [])
unfolding text_scan_text scan_keys text_key_add
listed = refl

-- 18 bytes in a PDU, and a text of 20 bytes.
abbrev uneven : ℕ → List Param
uneven zero = record { state = key_start; val = 18 } ∷ []
uneven (suc n) = no_param ∷ uneven n

abbrev answering : Conn
answering = record discovering { session_param = uneven 22; ttt = 5; text_rsp = replicate 20 65 }

cmnd_exec_text-overwritten_example :
    get_or
      (cmnd_exec_text portal
        (ask_on portal listing (send_text answering))
        (tx_init_data (send_text answering))).rsp.rsp_data
      0
      1
    ≡ 0
cmnd_exec_text-overwritten_example =
    cmnd_exec_text-overwritten portal listing answering refl (omega arith) refl (omega arith)
      (λ e. omega (arith, e))
