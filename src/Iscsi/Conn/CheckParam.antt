-- ===== src/Iscsi/Conn/CheckParam.antt =====
-- The parameters that the target has to offer: `text_check_param` of usr/iscsi/iscsid.c.
use tgt.Base.{
  ℕ, ◌+◌, Bool, true, false, not, ◌&&◌, List, [], ◌∷◌, get_or, set, ltb, leb, ◌==◌, if◌then◌else◌,
}
use tgt.Iscsi.Keys.{Response, text_key_add}
use tgt.Iscsi.Param.{
  key_request, key_done, Param, IscsiKey, no_param, val_at, session_keys, param_val_to_str,
  param_max_recv_dlength, param_first_local, param_rdma_extensions,
}
use tgt.Iscsi.Login.{is_start}
use tgt.Iscsi.Conn.State.{Conn, ConnState, state_login}

abbrev pub is_login : ConnState → Bool
is_login state_login = true
is_login other = false

-- `print` writes a number; `grows` is whether the response's buffer can grow.
module _ (print : ℕ → List ℕ) (grows : Bool) where
  -- The key is offered: the response gets it, and its state is KEY_STATE_REQUEST.
  unfoldable pub request_key : ℕ → IscsiKey → List Param × Response → List Param × Response
  request_key i key (params, rsp) =
      let p = get_or params i no_param in
      (
        set params i (record p { state = key_request }),
        text_key_add grows rsp key.name (param_val_to_str print key.ops p.val),
      )

  -- A local parameter is cut to the default.
  abbrev pub cut_local : ℕ → IscsiKey → List Param → List Param
  cut_local i key params =
      let p = get_or params i no_param in
      set params i
        (record p { state = key_done; val = if ltb key.def p.val then key.def else p.val })

  -- One round of the loop: what it makes of the parameters and the response, and what it counts.
  unfoldable pub check_key :
      Bool → ℕ → IscsiKey → List Param × Response → (List Param × Response) × ℕ
  unfolding request_key
  check_key in_login i key (params, rsp) =
      let p = get_or params i no_param in
      if not (is_start p.state && not (p.val == key.def))
      then ((params, rsp), 0)
      else if not in_login
      then ((params, rsp), 1)
      else if leb param_first_local i
      then ((cut_local i key params, rsp), 0)
      else if val_at params param_rdma_extensions == 1
      then if i == param_max_recv_dlength
        then ((params, rsp), 0)
        else (request_key i key (params, rsp), 1)
      else if leb param_rdma_extensions i
      then ((params, rsp), 0)
      else (request_key i key (params, rsp), 1)

  unfoldable pub check_keys :
      Bool → ℕ → List IscsiKey → List Param × Response → (List Param × Response) × ℕ
  unfolding check_key
  check_keys in_login i [] s = (s, 0)
  check_keys in_login i (key ∷ keys) s =
      let (s', one) = check_key in_login i key s in
      let (s'', more) = check_keys in_login (i + 1) keys s' in (s'', one + more)

  unfoldable pub text_check_param : Conn → Conn × ℕ
  unfolding check_keys
  text_check_param c =
      let (s, cnt) = check_keys (is_login c.state) 0 session_keys (c.session_param, c.rsp) in
      (record c { session_param = s.0; rsp = s.1 }, cnt)
