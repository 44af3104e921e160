-- ===== src/Tests/Security.antt =====
-- Requests for an authentication method.
use tgt.Base.{ℕ, ap, ◌≡◌, ◌⊎◌, refl, inl, true, false, List, [], ◌∷◌, length, text}
use tgt.Iscsi.Keys.{scan_keys, next_key, split_at}
use tgt.Iscsi.KeysRoundTrip.{wire}
use tgt.Iscsi.Security.{auth_unknown, auth_chap, Security, values_of, text_scan_security}
use tgt.Iscsi.SecurityMethod.{asks_for, text_scan_security-required, text_scan_security-accepts}

abbrev fresh : Security
fresh = record {
  auth_method = auth_unknown;
  auth_rsp = record {
    rsp_data = [];
    rsp_buffer_size = 512;
    is_full = false;
    is_text = false;
    max_xmit = 8192;
  };
  rejected = false;
}

-- An initiator names itself, asks for either method and then for a key that is not known.
abbrev either_keys : List (List ℕ × List ℕ)
either_keys =
    (text "InitiatorName", text "i")
    ∷ (text "AuthMethod", text "None,CHAP")
    ∷ (text "X", text "y")
    ∷ []

abbrev either : List ℕ
either = wire either_keys

text_scan_security-required_example :
    ((text_scan_security true true either fresh).auth_method ≡ auth_chap)
    ⊎ ((text_scan_security true true either fresh).rejected ≡ true)
text_scan_security-required_example = text_scan_security-required true true either fresh (inl refl)

either-scan_keys : scan_keys (length either) either ≡ either_keys
unfolding scan_keys next_key split_at
either-scan_keys = refl

text_scan_security-accepts_example :
    ((text_scan_security true true either fresh).auth_method ≡ auth_chap)
    × ((text_scan_security true true either fresh).rejected ≡ false)
unfolding values_of
text_scan_security-accepts_example =
    text_scan_security-accepts true true either fresh (ap (asks_for true) either-scan_keys) refl
