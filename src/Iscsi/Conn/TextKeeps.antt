-- ===== src/Iscsi/Conn/TextKeeps.antt =====
-- What a text request of usr/iscsi/iscsid.c keeps of a connection.
use tgt.Base.{
  ℕ, ◌∙◌, refl, inl, inr, not, ◌||◌, Option, List, [], ◌∷◌, length, ◌==◌, text, same_text,
  Bool-cases, Option-cases,
}
use tgt.Iscsi.Keys.{scan_keys}
use tgt.Iscsi.Conn.State.{Conn, Request}
use tgt.Iscsi.Conn.Portal.{Portal}
use tgt.Iscsi.Conn.Text.{
  reserved_tag, take_cmd_sn, clear_header, is_asked, is_hidden, list_target, asked_name,
  target_list_build, send_targets, scan_text_key, scan_text_keys, text_scan_text, send_text,
  cmnd_exec_text,
}
use tgt.Iscsi.Conn.Guarded.{Keeps}

Keeps-refl : {c : Conn} → Keeps c c
Keeps-refl = record { tid = refl; auth_state = refl; auth_method = refl; state = inl refl }

Keeps-trans : {c d e : Conn} → Keeps c d → Keeps d e → Keeps c e
Keeps-trans {c} {d} {e} j k = record {
  tid = k.tid ∙ j.tid;
  auth_state = k.auth_state ∙ j.auth_state;
  auth_method = k.auth_method ∙ j.auth_method;
  state = elim k.state [
    | inr ended ↦ inr ended
    | inl same ↦ elim j.state [ inl before ↦ inl (same ∙ before) | inr ended ↦ inr (same ∙ ended) ]
  ];
}

module _ (p : Portal) where
  target_list_build-Keeps :
      (addr : List ℕ) (name : Option (List ℕ)) (ts : List (ℕ × List ℕ)) (c : Conn)
      → Keeps c (target_list_build p addr name ts c)
  unfolding target_list_build
  target_list_build-Keeps addr name [] c = Keeps-refl
  target_list_build-Keeps addr name ((tid, target) ∷ ts) c =
      elim (Bool-cases (not (is_asked p name target) || is_hidden p tid c)) [
        | inl e ↦ rw (e, target_list_build) (target_list_build-Keeps addr name ts c)
        | inr e ↦
            rw (e, target_list_build)
              (Keeps-trans
                (record { tid = refl; auth_state = refl; auth_method = refl; state = inl refl })
                (target_list_build-Keeps addr name ts (list_target p addr (tid, target) c)))
      ]

  send_targets-Keeps : (value : List ℕ) (c : Conn) → Keeps c (send_targets p value c)
  unfolding send_targets
  send_targets-Keeps value c = elim (Bool-cases (length value == 0)) [
    | inl e ↦ rw (e, send_targets) Keeps-refl
    | inr e ↦ elim (Option-cases p.portal_name) [
      | inl f ↦ rw (e, f, send_targets) Keeps-refl
      | inr (addr, f) ↦
          rw (e, f, send_targets) (target_list_build-Keeps addr (asked_name p value) p.targets c)
    ]
  ]

  scan_text_keys-Keeps :
      (kvs : List (List ℕ × List ℕ)) (c : Conn) → Keeps c (scan_text_keys p kvs c)
  unfolding scan_text_keys scan_text_key
  scan_text_keys-Keeps [] c = Keeps-refl
  scan_text_keys-Keeps ((key, value) ∷ kvs) c =
      elim (Bool-cases (same_text key (text "SendTargets"))) [
        | inl e ↦
            rw (e, scan_text_keys)
              (Keeps-trans (send_targets-Keeps value c)
                (scan_text_keys-Keeps kvs (send_targets p value c)))
        | inr e ↦
            rw (e, scan_text_keys)
              (Keeps-trans
                (record { tid = refl; auth_state = refl; auth_method = refl; state = inl refl })
                (scan_text_keys-Keeps kvs _))
      ]

  pub cmnd_exec_text-Keeps : (req : Request) (c : Conn) → Keeps c (cmnd_exec_text p req c)
  unfolding cmnd_exec_text text_scan_text send_text
  cmnd_exec_text-Keeps req c = elim (Bool-cases (req.req_ttt == reserved_tag)) [
    | inl e ↦
        rw (e, cmnd_exec_text)
          (let k =
              scan_text_keys-Keeps (scan_keys (length req.req_data) req.req_data)
                (record (take_cmd_sn req (clear_header c)) { text_rsp = [] }) in
            record {
              tid = k.tid;
              auth_state = k.auth_state;
              auth_method = k.auth_method;
              state = k.state;
            })
    | inr e ↦ elim (Bool-cases ((length c.text_rsp == 0) || not (c.ttt == req.req_ttt))) [
      | inl f ↦
          rw (e, f, cmnd_exec_text)
            (record { tid = refl; auth_state = refl; auth_method = refl; state = inl refl })
      | inr f ↦
          rw (e, f, cmnd_exec_text)
            (record { tid = refl; auth_state = refl; auth_method = refl; state = inl refl })
    ]
  ]
