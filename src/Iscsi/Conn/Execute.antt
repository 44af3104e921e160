-- ===== src/Iscsi/Conn/Execute.antt =====
-- A request before the full feature phase: `conn_write_pdu`, `cmnd_execute` and the ends of
-- `iscsi_rx_handler` and `iscsi_tx_handler` of usr/iscsi/iscsid.c.
use tgt.Base.{◌%◌, Bool, true, false, [], ◌==◌, if◌then◌else◌}
use tgt.Iscsi.Param.{val_at, param_max_xmit_dlength}
use tgt.Iscsi.Conn.State
use tgt.Iscsi.Conn.State.{Conn, ConnState, Request}
use tgt.Iscsi.Conn.Portal.{Portal, Chance}
use tgt.Iscsi.Conn.Phases.{cmnd_exec_login, cmnd_finish}
use tgt.Iscsi.Conn.Text.{
  cmnd_exec_text, cmnd_exec_logout, cmnd_reject, clear_header, write_rsp, tx_init_data,
}

abbrev pub is_full_state : ConnState → Bool
is_full_state State.state_full = true
is_full_state other = false

-- The response is empty. What `text_key_add` reads of the connection is set with it.
abbrev pub conn_write_pdu : Request → Conn → Conn
conn_write_pdu req c = record (clear_header c) {
  rsp = record c.rsp {
    rsp_data = [];
    is_full = is_full_state c.state;
    is_text = req.opcode % 64 == 4;
    max_xmit = val_at c.session_param param_max_xmit_dlength;
  };
  rsp_at = 0;
}

-- The data of a login's response stand at the start of `rsp_buffer`.
abbrev pub write_login : Conn → Conn
write_login c = write_rsp 0 c.rsp.rsp_data c

module _ (p : Portal) where
  -- With whether it fails.
  unfoldable pub cmnd_execute : Chance → Request → Conn → Bool × Conn
  unfolding cmnd_exec_login cmnd_exec_text
  cmnd_execute w req c =
      if req.opcode % 64 == 3
      then (false, write_login (cmnd_exec_login p w req c))
      else if req.opcode % 64 == 4
      then (false, cmnd_exec_text p req c)
      else if req.opcode % 64 == 6
      then (false, cmnd_exec_logout req c)
      else (true, cmnd_reject req c)

  abbrev pub close_on : Bool × Conn → Conn
  close_on (true, c) = record c { state = State.state_close }
  close_on (false, c) = c

  -- The request was received.
  unfoldable pub rx_end : Chance → Request → Conn → Conn
  unfolding cmnd_execute
  rx_end w req c = close_on (cmnd_execute w req (conn_write_pdu req c))

  abbrev pub take_over : Conn → Conn
  take_over c = record c { state = if p.take_fd c then State.state_scsi else State.state_close }

  abbrev pub after_finish : ConnState → Conn → Conn
  after_finish State.state_kernel c = take_over c
  after_finish other c = c

  unfoldable pub tx_finish : Conn → Conn
  unfolding cmnd_finish
  tx_finish c = let c' = cmnd_finish c in after_finish c'.state c'

  -- The response was sent.
  unfoldable pub tx_end : Conn → Conn
  unfolding tx_finish tx_init_data
  tx_end c = tx_finish (tx_init_data c)
