-- ===== src/Iscsi/Security.antt =====
-- The choice of the authentication method: `text_scan_security` of usr/iscsi/iscsid.c.
use tgt.Base.{
  ℕ, Bool, true, false, List, [], ◌∷◌, ◌==◌, length, is_some, if◌then◌else◌, text, same_text,
}
use tgt.Iscsi.Keys.{Response, scan_keys, text_key_add}
use tgt.Iscsi.Param.{param_index_by_name}
use tgt.Iscsi.Login.{login_keys}

pub data AuthMethod : Type 0 where
  auth_unknown auth_none auth_chap : AuthMethod

-- The connection, as the scan reads and writes it. `rejected` is the login status for a failed
-- authentication with the state STATE_EXIT.
pub record Security : Type 0 where
  pub auth_method : AuthMethod
  pub auth_rsp : Response
  pub rejected : Bool

abbrev pub is_unknown : AuthMethod → Bool
is_unknown auth_unknown = true
is_unknown auth_none = false
is_unknown auth_chap = false

abbrev pub put_first : ℕ → List (List ℕ) → List (List ℕ)
put_first c [] = (c ∷ []) ∷ []
put_first c (w ∷ ws) = (c ∷ w) ∷ ws

-- The values between commas, as `strchr(value, ',')` finds them one by one.
unfoldable pub values_of : List ℕ → List (List ℕ)
values_of [] = [] ∷ []
values_of (c ∷ s) = if c == b',' then [] ∷ values_of s else put_first c (values_of s)

-- `available` is whether the target has an account for incoming authentication.
module _ (available grows : Bool) where
  unfoldable pub offer : AuthMethod → List ℕ → List ℕ → Security → Security
  offer method key value c = record c {
    auth_method = method;
    auth_rsp = text_key_add grows c.auth_rsp key value;
  }

  -- The loop over the values.
  unfoldable pub pick : List ℕ → List (List ℕ) → Security → Security
  unfolding offer
  pick key [] c = c
  pick key (w ∷ ws) c =
      let rest = pick key ws c in
      if same_text w (text "None")
      then if available then rest else offer auth_none key (text "None") c
      else if same_text w (text "CHAP")
      then if available then offer auth_chap key (text "CHAP") c else rest
      else rest

  abbrev pub add : List ℕ → List ℕ → Security → Security
  add key value c = record c { auth_rsp = text_key_add grows c.auth_rsp key value }

  unfoldable pub scan_method : List ℕ → List ℕ → Security → Security
  unfolding pick
  scan_method key value c =
      let picked = pick key (values_of value) c in
      if is_unknown picked.auth_method then add key (text "Reject") picked else picked

  unfoldable pub scan_security_key : List ℕ → List ℕ → Security → Security
  unfolding scan_method
  scan_security_key key value c =
      if is_some (param_index_by_name key login_keys)
      then c
      else if same_text key (text "AuthMethod")
      then scan_method key value c
      else add key (text "NotUnderstood") c

  unfoldable pub scan_security_keys : List (List ℕ × List ℕ) → Security → Security
  unfolding scan_security_key
  scan_security_keys [] c = c
  scan_security_keys ((key, value) ∷ kvs) c = scan_security_keys kvs (scan_security_key key value c)

  unfoldable pub text_scan_security : List ℕ → Security → Security
  unfolding scan_security_keys
  text_scan_security bytes c =
      let scanned = scan_security_keys (scan_keys (length bytes) bytes) c in
      if is_unknown scanned.auth_method then record scanned { rejected = true } else scanned
