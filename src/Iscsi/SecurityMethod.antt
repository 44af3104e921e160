-- ===== src/Iscsi/SecurityMethod.antt =====
-- Which method a login of usr/iscsi/iscsid.c is authenticated by.
use tgt.Base.{
  ℕ, ◌≡◌, ◌⊎◌, refl, inl, inr, Bool, true, false, List, [], ◌∷◌, ap, ◌∙◌, arith, length, is_some,
  if◌then◌else◌, text, same_text, Bool-cases, ◌&&◌, ◌||◌,
}
use tgt.Iscsi.Keys.{scan_keys}
use tgt.Iscsi.Param.{param_index_by_name}
use tgt.Iscsi.Login.{login_keys}
use tgt.Iscsi.Security.{
  AuthMethod, auth_unknown, auth_none, auth_chap, Security, is_unknown, values_of, offer, pick,
  scan_method, scan_security_key, scan_security_keys, text_scan_security,
}

-- CHAP where the target has an account, and no authentication where it has none.
abbrev pub required : Bool → AuthMethod
required true = auth_chap
required false = auth_none

-- Undecided, or the method that is required.
abbrev pub IsPermitted : Bool → Security → Type 0
IsPermitted available c = (c.auth_method ≡ auth_unknown) ⊎ (c.auth_method ≡ required available)

pick-IsPermitted :
    (available grows : Bool) (key : List ℕ) (ws : List (List ℕ)) (c : Security)
    → IsPermitted available c
    → IsPermitted available (pick available grows key ws c)
unfolding pick offer
pick-IsPermitted available grows key [] c h = h
pick-IsPermitted true grows key (w ∷ ws) c h =
    let rest = pick-IsPermitted true grows key ws c h in
    elim (Bool-cases (same_text w (text "None"))) [
      | inl e ↦ rw (e, pick) rest
      | inr e ↦
          rw (e, pick)
            (elim (Bool-cases (same_text w (text "CHAP"))) [
              | inl f ↦ rw (f, pick) (inr refl)
              | inr f ↦ rw (f, pick) rest
            ])
    ]
pick-IsPermitted false grows key (w ∷ ws) c h =
    let rest = pick-IsPermitted false grows key ws c h in
    elim (Bool-cases (same_text w (text "None"))) [
      | inl e ↦ rw (e, pick) (inr refl)
      | inr e ↦
          rw (e, pick)
            (elim (Bool-cases (same_text w (text "CHAP"))) [
              | inl f ↦ rw (f, pick) rest
              | inr f ↦ rw (f, pick) rest
            ])
    ]

module _ (available grows : Bool) where
  scan_method-IsPermitted :
      (key value : List ℕ) (c : Security)
      → IsPermitted available c
      → IsPermitted available (scan_method available grows key value c)
  unfolding scan_method
  scan_method-IsPermitted key value c h =
      let picked = pick-IsPermitted available grows key (values_of value) c h in
      elim (Bool-cases (is_unknown (pick available grows key (values_of value) c).auth_method)) [
        | inl e ↦ rw (e, scan_method) picked
        | inr e ↦ rw (e, scan_method) picked
      ]

  scan_security_key-IsPermitted :
      (key value : List ℕ) (c : Security)
      → IsPermitted available c
      → IsPermitted available (scan_security_key available grows key value c)
  unfolding scan_security_key
  scan_security_key-IsPermitted key value c h =
      elim (Bool-cases (is_some (param_index_by_name key login_keys))) [
        | inl e ↦ rw (e, scan_security_key) h
        | inr e ↦
            rw (e, scan_security_key)
              (elim (Bool-cases (same_text key (text "AuthMethod"))) [
                | inl f ↦ rw (f, scan_security_key) (scan_method-IsPermitted key value c h)
                | inr f ↦ rw (f, scan_security_key) h
              ])
      ]

  scan_security_keys-IsPermitted :
      (kvs : List (List ℕ × List ℕ)) (c : Security)
      → IsPermitted available c
      → IsPermitted available (scan_security_keys available grows kvs c)
  unfolding scan_security_keys
  scan_security_keys-IsPermitted [] c h = h
  scan_security_keys-IsPermitted ((key, value) ∷ kvs) c h =
      scan_security_keys-IsPermitted kvs (scan_security_key available grows key value c)
        (scan_security_key-IsPermitted key value c h)

-- Whatever an initiator asks for: from a method that is undecided or the required one, the scan ends
-- with the required method, CHAP where the target has an account and none where it has no account,
-- or the login is rejected.
pub text_scan_security-required :
    (available grows : Bool) (bytes : List ℕ) (c : Security)
    → IsPermitted available c
    → ((text_scan_security available grows bytes c).auth_method ≡ required available)
      ⊎ ((text_scan_security available grows bytes c).rejected ≡ true)
unfolding text_scan_security
text_scan_security-required available grows bytes c h =
    elim (scan_security_keys-IsPermitted available grows kvs c h) [
      | inl e ↦ inr (rw (e, text_scan_security) refl)
      | inr e ↦
          elim (Bool-cases (is_unknown (scan_security_keys available grows kvs c).auth_method)) [
            | inl u ↦ inl (rw (u, text_scan_security) e)
            | inr u ↦ inl (rw (u, text_scan_security) e)
          ]
    ]
  where
    kvs : List (List ℕ × List ℕ)
    kvs = scan_keys (length bytes) bytes

abbrev pub required_name : Bool → List ℕ
required_name true = text "CHAP"
required_name false = text "None"

abbrev pub is_listed : List ℕ → List (List ℕ) → Bool
is_listed name [] = false
is_listed name (w ∷ ws) = if same_text w name then true else is_listed name ws

no_none : (w : List ℕ) → same_text w (text "CHAP") ≡ true → same_text w (text "None") ≡ false
no_none [] h = refl
no_none (c ∷ w) h = ground (arith, h)

pick-listed :
    (available grows : Bool) (key : List ℕ) (ws : List (List ℕ)) (c : Security)
    → is_listed (required_name available) ws ≡ true
    → (pick available grows key ws c).auth_method ≡ required available
unfolding pick offer
pick-listed available grows key [] c h = absurd (cc)
pick-listed true grows key (w ∷ ws) c h = elim (Bool-cases (same_text w (text "CHAP"))) [
  | inl f ↦ rw (no_none w f, pick) (rw (f, pick) refl)
  | inr f ↦
      let rest = pick-listed true grows key ws c (simp f at h) in
      elim (Bool-cases (same_text w (text "None"))) [
        | inl e ↦ rw (e, pick) rest
        | inr e ↦ rw (e, pick) (rw (f, pick) rest)
      ]
]
pick-listed false grows key (w ∷ ws) c h = elim (Bool-cases (same_text w (text "None"))) [
  | inl e ↦ rw (e, pick) refl
  | inr e ↦
      let rest = pick-listed false grows key ws c (simp e at h) in
      rw (e, pick)
        (elim (Bool-cases (same_text w (text "CHAP"))) [
          | inl f ↦ rw (f, pick) rest
          | inr f ↦ rw (f, pick) rest
        ])
]

pick-unlisted :
    (available grows : Bool) (key : List ℕ) (ws : List (List ℕ)) (c : Security)
    → is_listed (required_name available) ws ≡ false
    → (pick available grows key ws c).auth_method ≡ c.auth_method
unfolding pick
pick-unlisted available grows key [] c h = refl
pick-unlisted true grows key (w ∷ ws) c h = ground (arith, h, pick-unlisted true grows key ws c)
pick-unlisted false grows key (w ∷ ws) c h = ground (arith, h, pick-unlisted false grows key ws c)

same_text_eq : (s t : List ℕ) → same_text s t ≡ true → s ≡ t
same_text_eq [] [] h = refl
same_text_eq [] (d ∷ t) h = absurd (cc)
same_text_eq (c ∷ s) [] h = absurd (cc)
same_text_eq (c ∷ s) (d ∷ t) h =
    let head : c ≡ d = ground (arith, h) in
    let tail : s ≡ t = same_text_eq s t (ground (arith, h)) in rw (head, tail) refl

-- AuthMethod is not among the keys that only a login reads.
no_login_key :
    (key : List ℕ)
    → same_text key (text "AuthMethod") ≡ true
    → is_some (param_index_by_name key login_keys) ≡ false
unfolding param_index_by_name
no_login_key key h = rw (same_text_eq key (text "AuthMethod") h) refl

pick-rejected :
    (available grows : Bool) (key : List ℕ) (ws : List (List ℕ)) (c : Security)
    → (pick available grows key ws c).rejected ≡ c.rejected
unfolding pick offer
pick-rejected available grows key [] c = refl
pick-rejected available grows key (w ∷ ws) c =
    ground (arith, pick-rejected available grows key ws c)

required-known : (available : Bool) → is_unknown (required available) ≡ false
required-known true = refl
required-known false = refl

scan_security_key-listed :
    (available grows : Bool) (key value : List ℕ) (c : Security)
    → same_text key (text "AuthMethod") ≡ true
    → is_listed (required_name available) (values_of value) ≡ true
    → scan_security_key available grows key value c ≡ pick available grows key (values_of value) c
unfolding scan_security_key scan_method
scan_security_key-listed available grows key value c named listed =
    let other : is_some (param_index_by_name key login_keys) ≡ false = no_login_key key named in
    rw other (
      rw named (
        rw (ap is_unknown (pick-listed available grows key (values_of value) c listed))
          (rw (required-known available) refl)))

-- A method that is settled stays, whatever else is listed.
pick-required :
    (available grows : Bool) (key : List ℕ) (ws : List (List ℕ)) (c : Security)
    → c.auth_method ≡ required available
    → (pick available grows key ws c).auth_method ≡ required available
pick-required available grows key ws c h =
    elim (Bool-cases (is_listed (required_name available) ws)) [
      | inl e ↦ pick-listed available grows key ws c e
      | inr e ↦ pick-unlisted available grows key ws c e ∙ h
    ]

-- Whether a text asks for the required method: one of its keys is AuthMethod, and has the method
-- among its values.
abbrev pub asks_for : Bool → List (List ℕ × List ℕ) → Bool
asks_for available [] = false
asks_for available ((key, value) ∷ kvs) =
    (same_text key (text "AuthMethod") && is_listed (required_name available) (values_of value))
    || asks_for available kvs

module _ (available grows : Bool) where
  scan_method-required :
      (key value : List ℕ) (c : Security)
      → c.auth_method ≡ required available
      → (scan_method available grows key value c).auth_method ≡ required available
  unfolding scan_method
  scan_method-required key value c h =
      let method = pick-required available grows key (values_of value) c h in
      rw (ap is_unknown method) (rw (required-known available) method)

  scan_security_key-required :
      (key value : List ℕ) (c : Security)
      → c.auth_method ≡ required available
      → (scan_security_key available grows key value c).auth_method ≡ required available
  unfolding scan_security_key
  scan_security_key-required key value c h =
      elim (Bool-cases (is_some (param_index_by_name key login_keys))) [
        | inl e ↦ rw (e, scan_security_key) h
        | inr e ↦
            rw (e, scan_security_key)
              (elim (Bool-cases (same_text key (text "AuthMethod"))) [
                | inl f ↦ rw (f, scan_security_key) (scan_method-required key value c h)
                | inr f ↦ rw (f, scan_security_key) h
              ])
      ]

  scan_security_keys-required :
      (kvs : List (List ℕ × List ℕ)) (c : Security)
      → c.auth_method ≡ required available
      → (scan_security_keys available grows kvs c).auth_method ≡ required available
  unfolding scan_security_keys
  scan_security_keys-required [] c h = h
  scan_security_keys-required ((key, value) ∷ kvs) c h =
      scan_security_keys-required kvs (scan_security_key available grows key value c)
        (scan_security_key-required key value c h)

  scan_security_keys-asks_for :
      (kvs : List (List ℕ × List ℕ)) (c : Security)
      → asks_for available kvs ≡ true
      → (scan_security_keys available grows kvs c).auth_method ≡ required available
  unfolding scan_security_keys
  scan_security_keys-asks_for [] c h = absurd (cc)
  scan_security_keys-asks_for ((key, value) ∷ kvs) c h =
      elim (Bool-cases (
        same_text key (text "AuthMethod")
        && is_listed (required_name available) (values_of value))) [
          | inr e ↦
              scan_security_keys-asks_for kvs (scan_security_key available grows key value c)
                (rw e at h)
          | inl e ↦
              scan_security_keys-required kvs (scan_security_key available grows key value c) (
                ap (λ d. d.auth_method)
                  (scan_security_key-listed available grows key value c (ground arith)
                    (ground arith))
                ∙ pick-listed available grows key (values_of value) c (ground arith))
        ]

  scan_security_keys-rejected :
      (kvs : List (List ℕ × List ℕ)) (c : Security)
      → (scan_security_keys available grows kvs c).rejected ≡ c.rejected
  unfolding scan_security_keys scan_security_key scan_method
  scan_security_keys-rejected [] c = refl
  scan_security_keys-rejected ((key, value) ∷ kvs) c =
      scan_security_keys-rejected kvs (scan_security_key available grows key value c)
      ∙ ground (arith, pick-rejected available grows key (values_of value) c)

-- An initiator one of whose keys is AuthMethod with the required method among its values gets that
-- method, and the login is not rejected if it was not before, whatever other keys and values it
-- sends.
pub text_scan_security-accepts :
    (available grows : Bool) (bytes : List ℕ) (c : Security)
    → asks_for available (scan_keys (length bytes) bytes) ≡ true
    → c.rejected ≡ false
    → ((text_scan_security available grows bytes c).auth_method ≡ required available)
      × ((text_scan_security available grows bytes c).rejected ≡ false)
unfolding text_scan_security
text_scan_security-accepts available grows bytes c asked fresh =
    let kvs = scan_keys (length bytes) bytes in
    let method = scan_security_keys-asks_for available grows kvs c asked in
    let status = scan_security_keys-rejected available grows kvs c in
    rw (ap is_unknown method) (rw (required-known available) (method, status ∙ fresh))
