-- ===== src/Iscsi/LoginFits.antt =====
-- The session parameters that a login of usr/iscsi/iscsid.c leaves.
use tgt.Base.{
  ℕ, ◌≡◌, refl, inl, inr, Bool, true, false, List, [], ◌∷◌, some, length, leb, is_some, same_text,
  text, ◌==◌, Bool-cases, Option-cases,
}
use tgt.Iscsi.Keys.{scan_keys}
use tgt.Iscsi.Param.{
  KeyState, key_start, key_request, key_done, key_at, val_at, put_val, session_keys, marker_settled,
  check_as, param_check_val, param_set_val, param_str_to_val, param_index_by_name,
  param_first_local, param_hdrdgst_en, param_datadgst_en, digest_none, param_rdma_extensions,
}
use tgt.Iscsi.Login.{
  Negotiation, login_keys, state_at, settle_state, conclude, take_offer, negotiate, xmit_for_recv,
  note_rdma, scan_key, scan_all, fix_rdma, text_scan_login, is_start,
}
use tgt.Iscsi.Fits.{all_fit, fits, all_fit-set, all_fit-val, settle-fits, check_as-fits}

-- Every parameter of the session, but for OFMarkInt and IFMarkInt, is one that its key can have.
abbrev pub InRange : Negotiation → Type 0
InRange c = all_fit session_keys c.session_param ≡ true

put_val-InRange :
    (c : Negotiation) (idx v : ℕ)
    → fits (key_at idx) v ≡ true
    → InRange c
    → InRange (record c { session_param = put_val c.session_param idx v })
put_val-InRange c idx v e h = all_fit-set session_keys c.session_param idx _ e h

fix_rdma-InRange : (c : Negotiation) → InRange c → InRange (fix_rdma c)
unfolding fix_rdma session_keys
fix_rdma-InRange c h = elim (Bool-cases c.failed) [
  | inl e ↦ rw e h
  | inr e ↦ rw e (elim (Bool-cases c.is_rdma) [
    | inl f ↦ rw f (
        put_val-InRange
          (record c { session_param = put_val c.session_param param_hdrdgst_en digest_none })
          param_datadgst_en digest_none refl
          (put_val-InRange c param_hdrdgst_en digest_none refl h))
    | inr f ↦ rw f (put_val-InRange c param_rdma_extensions 0 refl h)
  ])
]

module _ (strtol : List ℕ → ℕ) (print : ℕ → List ℕ) (grows : Bool) where
  settle_state-InRange :
      (c : Negotiation) (idx : ℕ)
      → InRange c
      → InRange (record c { session_param = settle_state c.session_param idx })
  settle_state-InRange c idx h =
      all_fit-set session_keys c.session_param idx _
        (all_fit-val session_keys c.session_param idx h) h

  conclude-InRange :
      (idx : ℕ) (key : List ℕ) (v : ℕ) (c : Negotiation)
      → InRange c
      → InRange (conclude strtol print grows idx key v c)
  unfolding conclude
  conclude-InRange idx key v c h = by_state (state_at c.session_param idx) refl
    where
      by_state :
          (s : KeyState)
          → state_at c.session_param idx ≡ s
          → InRange (conclude strtol print grows idx key v c)
      by_state key_start e =
          rw (e, conclude)
            (elim (Bool-cases (leb param_first_local idx)) [
              | inl f ↦ rw f (settle_state-InRange c idx h)
              | inr f ↦ rw f (settle_state-InRange c idx h)
            ])
      by_state key_request e =
          rw (e, conclude)
            (elim (Bool-cases (v == val_at c.session_param idx)) [
              | inl f ↦ rw f (settle_state-InRange c idx h)
              | inr f ↦ rw f h
            ])
      by_state key_done e = rw (e, conclude) (settle_state-InRange c idx h)

  take_offer-InRange :
      (idx : ℕ) (key value : List ℕ) (v : ℕ) (c : Negotiation)
      → param_str_to_val strtol (key_at idx).ops value ≡ some v
      → InRange c
      → InRange (take_offer strtol print grows idx key v c)
  unfolding take_offer param_check_val param_set_val
  take_offer-InRange idx key value v c read h =
      elim (Bool-cases (check_as (key_at idx).ops (key_at idx) v).1) [
        | inl bad ↦ rw (bad, take_offer) h
        | inr ok ↦
            let fit = check_as-fits strtol (key_at idx).ops (key_at idx) value v read ok in
            let mine = all_fit-val session_keys c.session_param idx h in
            rw (ok, take_offer)
              (elim (Bool-cases (leb param_first_local idx)) [
                | inl local ↦
                    rw (local, take_offer)
                      (conclude-InRange idx key _ _ (put_val-InRange c idx _ fit h))
                | inr sent ↦
                    rw (sent, take_offer)
                      (conclude-InRange idx key _ _ (
                        put_val-InRange c idx _
                          (settle-fits (key_at idx).ops (key_at idx)
                            (marker_settled c.session_param idx) (val_at c.session_param idx) _ mine
                            fit)
                          h))
              ])
      ]

  negotiate-InRange :
      (idx : ℕ) (key value : List ℕ) (c : Negotiation)
      → InRange c
      → InRange (negotiate strtol print grows idx key value c)
  unfolding negotiate
  negotiate-InRange idx key value c h =
      elim (Option-cases (param_str_to_val strtol (key_at idx).ops value)) [
        | inr (v, e) ↦ rw (e, negotiate) (take_offer-InRange idx key value v c e h)
        | inl e ↦
            rw (e, negotiate)
              (elim (Bool-cases (is_start (state_at c.session_param idx))) [
                | inl f ↦ rw f h
                | inr f ↦ rw f h
              ])
      ]

  scan_key-InRange :
      (key value : List ℕ) (c : Negotiation)
      → InRange c
      → InRange (scan_key strtol print grows key value c)
  unfolding scan_key
  scan_key-InRange key value c h =
      elim (Bool-cases (is_some (param_index_by_name key login_keys))) [
        | inl e ↦ rw (e, scan_key) h
        | inr e ↦
            rw (e, scan_key)
              (elim (Bool-cases (same_text key (text "AuthMethod"))) [
                | inl f ↦ rw f h
                | inr f ↦ rw f (elim (Option-cases (param_index_by_name key session_keys)) [
                  | inl g ↦ rw (g, scan_key) h
                  | inr (idx, g) ↦
                      rw (g, scan_key)
                        (negotiate-InRange (xmit_for_recv idx) key value
                          (note_rdma (xmit_for_recv idx) c) h)
                ])
              ])
      ]

  scan_all-InRange :
      (kvs : List (List ℕ × List ℕ)) (c : Negotiation)
      → InRange c
      → InRange (scan_all strtol print grows kvs c)
  unfolding scan_all
  scan_all-InRange [] c h = h
  scan_all-InRange ((key, value) ∷ kvs) c h =
      let next = scan_key-InRange key value c h in
      elim (Bool-cases (scan_key strtol print grows key value c).failed) [
        | inl e ↦ rw (e, scan_all) next
        | inr e ↦
            rw (e, scan_all) (scan_all-InRange kvs (scan_key strtol print grows key value c) next)
      ]

-- Whatever text keys a login request carries and however numbers are read: if it was so before, each
-- numeric parameter of the session is within the range of its key in the table, or 0 for
-- MaxOutstandingUnexpectedPDUs, where 0 stands for no limit; each parameter for Yes or No is 0 or 1;
-- and each for digests is a set of digests that is not empty. Nothing is said of OFMarkInt and
-- IFMarkInt.
pub text_scan_login-InRange :
    (strtol : List ℕ → ℕ) (print : ℕ → List ℕ) (grows : Bool) (bytes : List ℕ) (c : Negotiation)
    → InRange c
    → InRange (text_scan_login strtol print grows bytes c)
unfolding text_scan_login
text_scan_login-InRange strtol print grows bytes c h = fix_rdma-InRange _ (
    scan_all-InRange strtol print grows (scan_keys (length bytes) bytes)
      (record c { is_rdma = false; failed = false }) h)
